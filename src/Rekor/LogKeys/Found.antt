-- ===== src/Rekor/LogKeys/Found.antt =====
-- Which log GetLogVerifier finds.
use rekor_monitor.Base.{
  ℕ, ◌≡◌, ◌⊎◌, true, Option, none, some, ok, String, List, [], ◌∷◌, length, take, leb, Any, arith,
  inl, inr, Result-cases, Bool-cases,
}
use rekor_monitor.Base.Classes.{◌==◌, nat_comparable, list_comparable}
use rekor_monitor.Rekor.LogKeys.{TransparencyLog, KeyLoading, key_id_of, find_log, verifier_of}

module _ (keys : KeyLoading) (key_id : List ℕ) where
  -- The ID of the log starts with the key ID.
  abbrev pub Names : String × TransparencyLog → Type 0
  Names (k, l) =
      (id : List ℕ) × (keys.decode_hex k ≡ ok id)
      × (leb 4 (length id) ≡ true)
      × (take 4 id ≡ key_id)

  find_log-Names :
      (logs : List (String × TransparencyLog)) (m : Option TransparencyLog) (l : TransparencyLog)
      → find_log keys key_id logs m ≡ ok (some l)
      → (m ≡ some l) ⊎ Any (λ e. (e.1 ≡ l) × Names e) logs
  unfolding find_log key_id_of
  find_log-Names [] m l h = inl (ground (arith, h))
  find_log-Names ((k, v) ∷ logs) m l h = elim (Result-cases (keys.decode_hex k)) [
    | inl (id, d) ↦ elim (Bool-cases (leb 4 (length id))) [
      | inl long ↦ elim (Bool-cases (take 4 id == key_id)) [
        | inl same ↦
            let named : Names (k, v) =
              (id, d, long, (list_comparable.same_iff (take 4 id) key_id).0 same) in
            elim (find_log-Names logs (some v) l (ground (arith, d, long, same, h))) [
              | inl e ↦ inr (inl (ground (arith, e), named))
              | inr rest ↦ inr (inr rest)
            ]
        | inr other ↦ elim (find_log-Names logs m l (ground (arith, d, long, other, h))) [
          | inl e ↦ inl e
          | inr rest ↦ inr (inr rest)
        ]
      ]
      | inr short ↦ absurd (ground (arith, d, short, h))
    ]
    | inr (inl (x, e)) ↦ absurd (ground (arith, e, h))
    | inr (inr (x, e)) ↦ absurd (ground (arith, e, h))
  ]

  -- A log of the list that the key ID names, and whose key gives the verifier.
  abbrev pub Trusted : List (String × TransparencyLog) → String → Type 0
  Trusted logs verifier =
      (l : TransparencyLog) × Any (λ e. (e.1 ≡ l) × Names e) logs
      × (keys.load_verifier l.public_key l.hash_func ≡ ok verifier)

  pub verifier_of-Trusted :
      (missing : String) (logs : List (String × TransparencyLog)) (verifier : String)
      → verifier_of keys key_id missing logs ≡ ok verifier
      → Trusted logs verifier
  unfolding verifier_of
  verifier_of-Trusted missing logs verifier h =
      elim (Result-cases (find_log keys key_id logs none)) [
        | inl (none, e) ↦ absurd (ground (arith, e, h))
        | inl (some l, e) ↦ elim (find_log-Names logs none l e) [
          | inl x ↦ absurd (ground (arith, x))
          | inr found ↦ (l, found, ground (arith, e, h))
        ]
        | inr (inl (x, e)) ↦ absurd (ground (arith, e, h))
        | inr (inr (x, e)) ↦ absurd (ground (arith, e, h))
      ]
