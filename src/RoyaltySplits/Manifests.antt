-- ===== src/RoyaltySplits/Manifests.antt =====
-- contracts/royalty-splits/src/lib.rs: what `create_manifest` admits.
use chain_verse_onchain.Common.{
  ℕ, ◌+◌, ◌≤◌, ◌≡◌, arith, Bool, true, not, ◌&&◌, List, [], ◌∷◌, none, some, length, ◌==◌, u32_max,
  lookup, insert, nat_eq, Env, done, ok,
}
use chain_verse_onchain.RoyaltySplits.{State, sum_shares, create_manifest, split_new}
use chain_verse_onchain.RoyaltySplits.Shares.{sum}

-- No share is zero.
abbrev pub positive : List ℕ → Bool
positive [] = true
positive (b ∷ bps) = not (b == 0) && positive bps

-- A manifest that can be persisted: between one recipient and twenty, a positive share for each, and
-- 10,000 basis points in all.
pub record IsManifest (recipients bps : List ℕ) : Type 0 where
  pub not_empty : 1 ≤ length recipients
  pub bounded : length recipients ≤ 20
  pub matched : length recipients ≡ length bps
  pub shares_positive : positive bps ≡ true
  pub whole : sum bps ≡ 10_000

sum_shares_inv :
    (t total : ℕ) (bps : List ℕ)
    → sum_shares t bps ≡ ok total
    → (total ≡ t + sum bps) × (positive bps ≡ true)
unfolding sum_shares
sum_shares_inv t total [] h = ground arith
sum_shares_inv t total (b ∷ bps) h = ground (arith, sum_shares_inv (t + b) total bps)

sum_shares_ok :
    (t : ℕ) (bps : List ℕ)
    → positive bps ≡ true
    → t + sum bps ≤ u32_max
    → sum_shares t bps ≡ ok (t + sum bps)
unfolding sum_shares
sum_shares_ok t [] p h = ground arith
sum_shares_ok t (b ∷ bps) p h = ground (arith, sum_shares_ok (t + b) bps)

-- The guards of a creation that succeeds.
created :
    (env : Env) (admin id : ℕ) (recipients bps : List ℕ) (c d : State)
    → create_manifest env admin id recipients bps c ≡ done (tt, d)
    → ((1 ≤ length recipients)
        × (length recipients ≤ 20)
        × (length recipients ≡ length bps)
        × (sum_shares 0 bps ≡ ok 10_000))
      × (c.store.admin ≡ some admin)
      × (env.authorized admin ≡ true)
      × (lookup id c.store.manifests ≡ none)
      × (d.store ≡ record (c.store) {
        manifests =
            insert id
              (record { recipients = recipients; bps = bps; created_at = env.timestamp })
              c.store.manifests;
      })
unfolding create_manifest
created env admin id recipients bps c d h = ground arith

-- A manifest is created only by the administrator, under an id that is free and with shares that are
-- well-formed, and is then stored as given; nothing else of the storage changes.
pub create_manifest_stored :
    (env : Env) (admin id : ℕ) (recipients bps : List ℕ) (c d : State)
    → create_manifest env admin id recipients bps c ≡ done (tt, d)
    → IsManifest recipients bps
      × (c.store.admin ≡ some admin)
      × (env.authorized admin ≡ true)
      × (lookup id c.store.manifests ≡ none)
      × (d.store ≡ record (c.store) {
        manifests =
            insert id
              (record { recipients = recipients; bps = bps; created_at = env.timestamp })
              c.store.manifests;
      })
create_manifest_stored env admin id recipients bps c d h =
    let ((one, twenty, same, whole), a, u, free, now) = created env admin id recipients bps c d h in
    let (total, all) = sum_shares_inv 0 10_000 bps whole in
    (
      record {
        not_empty = one;
        bounded = twenty;
        matched = same;
        shares_positive = all;
        whole = omega (arith, total);
      },
      a,
      u,
      free,
      now,
    )

-- Every well-formed manifest is accepted from the administrator under an id that is free.
pub create_manifest_accepts :
    (env : Env) (admin id : ℕ) (recipients bps : List ℕ) (c : State)
    → IsManifest recipients bps
    → c.store.admin ≡ some admin
    → env.authorized admin ≡ true
    → lookup id c.store.manifests ≡ none
    → create_manifest env admin id recipients bps c
      ≡ done (
        tt,
        record c {
          store = record (c.store) {
            manifests =
                insert id
                  (record { recipients = recipients; bps = bps; created_at = env.timestamp })
                  c.store.manifests;
          };
          events = split_new id ∷ c.events;
        },
      )
unfolding create_manifest
create_manifest_accepts env admin id recipients bps c m a u free =
    let e : sum_shares 0 bps ≡ ok 10_000 =
      rw m.whole at (sum_shares_ok 0 bps m.shares_positive (omega (arith, m.whole))) in
    ground (arith, m.not_empty, m.bounded, m.matched)
