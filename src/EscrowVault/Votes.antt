-- ===== src/EscrowVault/Votes.antt =====
-- Counting the approvers that have voted, against the list of recorded votes.
use chain_verse_onchain.Common.{
  ℕ, ◌+◌, ◌≡◌, refl, ap, sym, inl, inr, Bool-cases, ==_iff, arith, Bool, true, false, ◌&&◌, ◌||◌,
  List, [], ◌∷◌, lookup, insert, erase, pair_eq, lookup-insert, lookup-erase, is_some, ◌==◌,
  if◌then◌else◌,
}
use chain_verse_onchain.EscrowVault.{contains, has_duplicate, unseen, deduplicate}

abbrev pub Recorded : Type 0
Recorded = List ((ℕ × ℕ) × Bool)

abbrev pub voted : (id a : ℕ) → Recorded → Bool
voted id a m = is_some (lookup (id, a) m)

-- How many of the approvers have voted on the vault.
abbrev pub votes_of : (id : ℕ) → (approvers : List ℕ) → Recorded → ℕ
votes_of id [] m = 0
votes_of id (a ∷ list) m = (if voted id a m then 1 else 0) + votes_of id list m

pub voted-insert :
    (id a j b : ℕ) (m : Recorded)
    → voted j b (insert (id, a) true m) ≡ (((id == j) && (a == b)) || voted j b m)
voted-insert id a j b m = ground (arith, lookup-insert (id, a) (j, b) true m)

pub voted-erase :
    (id a j b : ℕ) (m : Recorded)
    → voted j b (erase (id, a) m) ≡ (if (id == j) && (a == b) then false else voted j b m)
voted-erase id a j b m = ground (arith, lookup-erase (id, a) (j, b) m)

-- A vote of an address that is not in the list does not count.
pub votes_of-insert_out :
    (id a j : ℕ) (list : List ℕ) (m : Recorded)
    → ((id == j) && contains a list) ≡ false
    → votes_of j list (insert (id, a) true m) ≡ votes_of j list m
votes_of-insert_out id a j [] m h = refl
votes_of-insert_out id a j (b ∷ list) m h =
    ground (arith, voted-insert id a j b m, votes_of-insert_out id a j list m)

-- A new vote counts once.
pub votes_of-insert :
    (id a j : ℕ) (list : List ℕ) (m : Recorded)
    → has_duplicate list ≡ false
    → voted id a m ≡ false
    → votes_of j list (insert (id, a) true m)
      ≡ votes_of j list m + (if (id == j) && contains a list then 1 else 0)
votes_of-insert id a j [] m h k = ground arith
votes_of-insert id a j (b ∷ list) m h k = ground (
  arith,
  voted-insert id a j b m,
  votes_of-insert id a j list m,
  votes_of-insert_out id a j list m,
)

pub votes_of-erase_out :
    (id a j : ℕ) (list : List ℕ) (m : Recorded)
    → ((id == j) && contains a list) ≡ false
    → votes_of j list (erase (id, a) m) ≡ votes_of j list m
votes_of-erase_out id a j [] m h = refl
votes_of-erase_out id a j (b ∷ list) m h =
    ground (arith, voted-erase id a j b m, votes_of-erase_out id a j list m)

-- A vote that is withdrawn counted once.
pub votes_of-erase :
    (id a j : ℕ) (list : List ℕ) (m : Recorded)
    → has_duplicate list ≡ false
    → voted id a m ≡ true
    → votes_of j list (erase (id, a) m) + (if (id == j) && contains a list then 1 else 0)
      ≡ votes_of j list m
votes_of-erase id a j [] m h k = ground arith
votes_of-erase id a j (b ∷ list) m h k =
    ground (
      arith,
      voted-erase id a j b m,
      votes_of-erase id a j list m,
      votes_of-erase_out id a j list m,
    )

-- Nobody in the list has voted on a vault that has no votes.
pub votes_of-none :
    (id : ℕ) (list : List ℕ) (m : Recorded)
    → ((a : ℕ) → voted id a m ≡ false)
    → votes_of id list m ≡ 0
votes_of-none id [] m h = refl
votes_of-none id (a ∷ list) m h = ground (arith, h a, votes_of-none id list m h)

pub same_contains : (a b : ℕ) (list : List ℕ) → (a == b) ≡ true → contains b list ≡ contains a list
same_contains a b list h = ap (λ x. contains x list) (sym ((==_iff a b).0 h))

later :
    (a : ℕ) (seen list : List ℕ)
    → ((b : ℕ) → contains b (a ∷ list) ≡ true → contains b seen ≡ false)
    → has_duplicate (a ∷ list) ≡ false
    → (b : ℕ) → contains b list ≡ true
    → contains b (a ∷ seen) ≡ false
later a seen list h k b m =
    let out : contains b seen ≡ false = h b (ground arith) in
    elim (Bool-cases (a == b)) [
      | inl p ↦ let e = same_contains a b list p in absurd (ground arith)
      | inr p ↦ ground arith
    ]

unseen_all :
    (seen list : List ℕ)
    → ((a : ℕ) → contains a list ≡ true → contains a seen ≡ false)
    → has_duplicate list ≡ false
    → unseen seen list ≡ list
unseen_all seen [] h k = refl
unseen_all seen (a ∷ list) h k =
    let first : contains a seen ≡ false = h a (ground arith) in
    let rest : unseen (a ∷ seen) list ≡ list =
      unseen_all (a ∷ seen) list (later a seen list h k) (ground arith) in
    ground arith

-- Of approvers that passed the duplicate test `deduplicate` removes none.
pub deduplicate_lem : (list : List ℕ) → has_duplicate list ≡ false → deduplicate list ≡ list
deduplicate_lem list h = unseen_all [] list (λ a k. refl) h
