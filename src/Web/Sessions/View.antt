-- ===== src/Web/Sessions/View.antt =====
-- What checking and evicting tokens does to the tokens that have not expired, when no statement
-- fails.
use loomwatch.Prelude.{
  ℕ, suc, ◌<◌, ◌≡◌, refl, ◌∙◌, inl, inr, Bool-cases, Option-cases, String, Bool, true, false,
  Option, none, some, [], ◌∷◌, arith, ◌==◌, nat_eq, string_eq, ltb, if◌then◌else◌, is_some,
}
use loomwatch.Prelude.Dict.{Dict, lookup, erase, IsMap, lookup-insert, lookup-erase}
use loomwatch.Web.Sessions.{
  TokenDb, SessionStore, delete_auth_token, get_auth_token_expiry, validate_found, validate_stored,
  validate_token, evict_expired,
}
use loomwatch.Web.Sessions.Coherence.{CoherentAt, Faultless, deleted-Becomes, live, view_of}

-- The same, for the expiry as far as it has not passed.
abbrev pub Shows : ℕ → String → Option ℕ → Dict String ℕ → Option TokenDb → Type 0
Shows now u expiry tokens store =
    Faultless store
    × CoherentAt u tokens store
    × (live now (view_of tokens store u) ≡ live now expiry)

cached-view :
    (u : String) (expiry : ℕ) (tokens : Dict String ℕ) (store : Option TokenDb)
    → CoherentAt u tokens store
    → lookup u tokens ≡ some expiry
    → view_of tokens store u ≡ some expiry
cached-view u expiry tokens none coherent e = e
cached-view u expiry tokens (some db) coherent e = ground arith

-- One round of the eviction.
evict_one :
    (now : ℕ) (k u : String) (expiry : ℕ) (tokens : Dict String ℕ) (store : Option TokenDb)
    → expiry < now
    → ((k == u) ≡ true → lookup u tokens ≡ some expiry)
    → Faultless store
    → CoherentAt u tokens store
    → Shows now u (view_of tokens store u) (erase k tokens) (delete_auth_token k store)
evict_one now k u expiry tokens store late known fine coherent =
    let done = deleted-Becomes k u tokens store fine coherent in
    (done.0, done.1, ground (arith, done.2, cached-view u expiry tokens store coherent))

abbrev pub ShowsPair : ℕ → String → Option ℕ → Dict String ℕ × Option TokenDb → Type 0
ShowsPair now u expiry p = Shows now u expiry p.0 p.1

round_same :
    (k u : String) (expiry : ℕ) (rest tokens : Dict String ℕ)
    → lookup k rest ≡ none
    → (is_some (lookup u ((k, expiry) ∷ rest)) ≡ true
        → lookup u tokens ≡ lookup u ((k, expiry) ∷ rest))
    → is_some (lookup u rest) ≡ true
    → (lookup u tokens ≡ lookup u rest) × (lookup u (erase k tokens) ≡ lookup u rest)
round_same k u expiry rest tokens absent same h =
    ground (arith, string_eq.matches_iff k u, lookup-erase k u tokens)

pub evicted-Shows :
    (now : ℕ) (u : String) (cached tokens : Dict String ℕ) (store : Option TokenDb)
    → IsMap cached
    → (is_some (lookup u cached) ≡ true → lookup u tokens ≡ lookup u cached)
    → Faultless store
    → CoherentAt u tokens store
    → ShowsPair now u (view_of tokens store u) (evict_expired now cached (tokens, store))
unfolding evict_expired
evicted-Shows now u [] tokens store keys same fine coherent = (fine, coherent, refl)
evicted-Shows now u ((k, expiry) ∷ rest) tokens store keys same fine coherent =
    let next =
      λ (h : is_some (lookup u rest) ≡ true). round_same k u expiry rest tokens keys.0 same h in
    elim (Bool-cases (ltb expiry now)) [
      | inl late ↦
          let known = λ (h : (k == u) ≡ true).
            let e : lookup u tokens ≡ some expiry = ground (arith, same) in e in
          let one = evict_one now k u expiry tokens store (ground arith) known fine coherent in
          let more =
            evicted-Shows now u rest (erase k tokens) (delete_auth_token k store) keys.1
              (λ h. (next h).1) one.0 one.1 in
          rw (late, evict_expired) (more.0, more.1, more.2 ∙ one.2)
      | inr early ↦
          rw (early, evict_expired)
            (evicted-Shows now u rest tokens store keys.1 (λ h. (next h).0) fine coherent)
    ]

-- `ValidateToken` answers for the token by its live expiry, and keeps what is live about each.
abbrev pub Validates :
    ℕ → String → String → Dict String ℕ → Option TokenDb → SessionStore × Bool → Type 0
Validates now k u tokens store r =
    Shows now u (view_of tokens store u) r.0.tokens r.0.store
    × (r.1 ≡ is_some (live now (view_of tokens store k)))

module _ (k u : String) (now : ℕ) (s : SessionStore) where
  validate_found-Validates :
      (db : TokenDb) (found : Option ℕ)
      → lookup k db.rows ≡ found
      → lookup k s.tokens ≡ none
      → Faultless (some db)
      → CoherentAt u s.tokens (some db)
      → Validates now k u s.tokens (some db) (validate_found k now s db found)
  unfolding validate_found delete_auth_token
  validate_found-Validates db none e absent fine coherent = ((fine, coherent, refl), ground arith)
  validate_found-Validates db (some expiry) e absent fine coherent =
      let at_k = string_eq.matches_iff k u in
      let erased = lookup-erase k u db.rows in
      let inserted = lookup-insert k u expiry s.tokens in
      elim (Bool-cases (ltb expiry now)) [
        | inl late ↦
            rw (late, validate_found)
              (
                (
                  fine,
                  ground (arith, fine db.calls, at_k, erased, coherent),
                  ground (arith, fine db.calls, at_k, erased),
                ),
                ground arith,
              )
        | inr early ↦
            rw (early, validate_found)
              ((fine, ground (arith, at_k, inserted, coherent), refl), ground arith)
      ]

  validate_stored-Validates :
      (store : Option TokenDb)
      → s.store ≡ store
      → lookup k s.tokens ≡ none
      → Faultless store
      → CoherentAt u s.tokens store
      → Validates now k u s.tokens store (validate_stored k now s store)
  unfolding validate_stored get_auth_token_expiry
  validate_stored-Validates none same absent fine coherent =
      (rw same (fine, coherent, refl), ground arith)
  validate_stored-Validates (some db) same absent fine coherent =
      let db' : TokenDb = record db { calls = suc db.calls } in
      rw (fine db.calls) (validate_found-Validates db' (lookup k db.rows) refl absent fine coherent)

  validate_cached-Validates :
      (expiry : ℕ)
      → lookup k s.tokens ≡ some expiry
      → CoherentAt k s.tokens s.store
      → Faultless s.store
      → CoherentAt u s.tokens s.store
      → Validates now k u s.tokens s.store (
          if ltb expiry now
          then (record s { tokens = erase k s.tokens; store = delete_auth_token k s.store }, false)
          else (s, true))
  validate_cached-Validates expiry e coherent_k fine coherent =
      let known = cached-view k expiry s.tokens s.store coherent_k e in
      let done = deleted-Becomes k u s.tokens s.store fine coherent in
      elim (Bool-cases (ltb expiry now)) [
        | inl late ↦ rw late (
          (done.0, done.1, ground (arith, done.2, known, string_eq.matches_iff k u)),
          ground (arith, known),
        )
        | inr early ↦ rw early ((fine, coherent, refl), ground (arith, known))
      ]

  -- For a token that is not empty, `ValidateToken` says whether its expiry is live, and keeps what
  -- is live about every token.
  pub validate_token-Validates :
      (k == "") ≡ false
      → CoherentAt k s.tokens s.store
      → Faultless s.store
      → CoherentAt u s.tokens s.store
      → Validates now k u s.tokens s.store (validate_token k now s)
  unfolding validate_token
  validate_token-Validates named coherent_k fine coherent =
      elim (Option-cases (lookup k s.tokens)) [
        | inl absent ↦
            rw (named, validate_token, absent)
              (validate_stored-Validates s.store refl absent fine coherent)
        | inr (expiry, e) ↦
            rw (named, validate_token, e)
              (validate_cached-Validates expiry e coherent_k fine coherent)
      ]
