-- ===== src/Web/Sessions/Refinement.antt =====
-- What a session store promises: a token is good from a login with the right credentials until a
-- logout, a logout of all, or seven days, whatever is cached, checked and evicted in between.
use loomwatch.Prelude.{
  ℕ, ◌+◌, ◌≤◌, ◌≡◌, refl, ◌∙◌, ap, String, true, false, Option, none, some, List, [], ◌∷◌, arith,
  ◌==◌, string_eq, ltb, is_some, inl, inr, Bool-cases,
}
use loomwatch.Prelude.Dict.{Dict, erase, IsMap, insert-IsMap, erase-IsMap}
use loomwatch.Web.Sessions.{
  TokenDb, SessionStore, Hashes, session_max_age, delete_auth_token, password_matches, authenticate,
  validate_found, validate_stored, validate_token, invalidate, invalidate_all, update_password,
  evict_expired, evict_expired_tokens,
}
use loomwatch.Web.Sessions.View.{Shows, evicted-Shows, validate_token-Validates}
use loomwatch.Web.Sessions.Coherence.{
  view, view_of, live, live_mono, saved-Becomes, deleted-Becomes, all_deleted-Becomes,
}
use loomwatch.Web.Sessions.Grants.{
  AllBefore, Call, Grants, Refines, changes_password, checks, evicts, grant_step, grants, logs_in,
  logs_out, logs_out_all, run, step,
}

evict_expired-IsMap :
    (now : ℕ) (cached tokens : Dict String ℕ) (store : Option TokenDb)
    → IsMap tokens
    → IsMap (evict_expired now cached (tokens, store)).0
unfolding evict_expired
evict_expired-IsMap now [] tokens store h = h
evict_expired-IsMap now ((k, e) ∷ rest) tokens store h = elim (Bool-cases (ltb e now)) [
  | inl late ↦
      rw (late, evict_expired)
        (evict_expired-IsMap now rest (erase k tokens) (delete_auth_token k store)
          (erase-IsMap k tokens h))
  | inr early ↦ rw (early, evict_expired) (evict_expired-IsMap now rest tokens store h)
]

module _ (k : String) (now : ℕ) (s : SessionStore) (h : IsMap s.tokens) where
  validate_found-IsMap :
      (db : TokenDb) (found : Option ℕ) → IsMap (validate_found k now s db found).0.tokens
  unfolding validate_found
  validate_found-IsMap db none = h
  validate_found-IsMap db (some expiry) = ground (arith, insert-IsMap k expiry s.tokens h)

  validate_stored-IsMap : (store : Option TokenDb) → IsMap (validate_stored k now s store).0.tokens
  unfolding validate_stored
  validate_stored-IsMap none = h
  validate_stored-IsMap (some db) = validate_found-IsMap _ _

  validate_token-IsMap : IsMap (validate_token k now s).0.tokens
  unfolding validate_token
  validate_token-IsMap = ground (arith, erase-IsMap k s.tokens h, validate_stored-IsMap s.store)

pub validate_token-user :
    (k : String) (now : ℕ) (s : SessionStore)
    → ((validate_token k now s).0.username ≡ s.username)
      × ((validate_token k now s).0.password_hash ≡ s.password_hash)
unfolding validate_token validate_stored validate_found
validate_token-user k now s = ground arith

module _ (h : Hashes) (now : ℕ) (user : String) (s : SessionStore) (g : Grants)
    (r : Refines now user s g) where
  -- From what an operation at a time up to now does to every token.
  shown_later :
      (at : ℕ)
      → at ≤ now
      → (u : String) (tokens : Dict String ℕ) (store : Option TokenDb)
      → Shows at u (view s u) tokens store
      → live now (view_of tokens store u) ≡ live now (g.expiry u)
  shown_later at before u tokens store shows =
      live_mono at now (view_of tokens store u) (view s u) before shows.2 ∙ r.shown u

  logs_in-Refines :
      (at : ℕ) (username password token : String)
      → Refines now user
          (authenticate h username password at token s).0
          (grant_step h user (at, logs_in username password token) g)
  unfolding authenticate grant_step
  logs_in-Refines at username password token =
      let expiry = at + session_max_age in
      let saved =
        λ (u : String). saved-Becomes token u expiry s.tokens s.store r.fine (r.coherent u) in
      elim (Bool-cases (username == user)) [
        | inr other ↦
            let other' : (username == s.username) ≡ false = rw r.named other in
            rw (other, other', authenticate) r
        | inl known ↦
            let known' : (username == s.username) ≡ true = rw r.named known in
            elim (Bool-cases (password_matches h g.hash password)) [
              | inr wrong ↦
                  let wrong' : password_matches h s.password_hash password ≡ false =
                    rw r.hashed wrong in
                  rw (known, known', authenticate, wrong, wrong') r
              | inl right ↦
                  let right' : password_matches h s.password_hash password ≡ true =
                    rw r.hashed right in
                  rw (known, known', authenticate, right, right')
                    (record {
                      keys = insert-IsMap token expiry s.tokens r.keys;
                      fine = (saved token).0;
                      coherent = λ u. (saved u).1;
                      named = r.named;
                      hashed = r.hashed;
                      shown = λ u. rw (saved u).2 (ground (arith, r.shown u));
                    })
            ]
      ]

  checks-Refines :
      (at : ℕ) (token : String) → at ≤ now → Refines now user (validate_token token at s).0 g
  unfolding validate_token
  checks-Refines at token before = elim (Bool-cases (token == "")) [
    | inl empty ↦ rw (empty, validate_token) r
    | inr named ↦
        let done = λ (u : String).
          validate_token-Validates token u at s named (r.coherent token) r.fine (r.coherent u) in
        record {
          keys = validate_token-IsMap token at s r.keys;
          fine = (done token).0.0;
          coherent = λ u. (done u).0.1;
          named = (validate_token-user token at s).0 ∙ r.named;
          hashed = (validate_token-user token at s).1 ∙ r.hashed;
          shown = λ u. shown_later at before u _ _ (done u).0;
        }
  ]

  logs_out-Refines :
      (at : ℕ) (token : String)
      → Refines now user (step h (at, logs_out token) s) (grant_step h user (at, logs_out token) g)
  unfolding step invalidate grant_step
  logs_out-Refines at token =
      let done = λ (u : String). deleted-Becomes token u s.tokens s.store r.fine (r.coherent u) in
      record {
        keys = erase-IsMap token s.tokens r.keys;
        fine = (done token).0;
        coherent = λ u. (done u).1;
        named = r.named;
        hashed = r.hashed;
        shown = λ u. rw (done u).2 (ground (arith, r.shown u));
      }

  logs_out_all-Refines :
      (at : ℕ)
      → Refines now user (step h (at, logs_out_all) s) (grant_step h user (at, logs_out_all) g)
  unfolding step invalidate_all grant_step
  logs_out_all-Refines at =
      let done = λ (u : String). all_deleted-Becomes u s.store r.fine in
      record {
        keys = tt;
        fine = (done "").0;
        coherent = λ u. (done u).1;
        named = r.named;
        hashed = r.hashed;
        shown = λ u. rw (done u).2 refl;
      }

  evicts-Refines : (at : ℕ) → at ≤ now → Refines now user (step h (at, evicts) s) g
  unfolding step evict_expired_tokens
  evicts-Refines at before =
      let done = λ (u : String).
        evicted-Shows at u s.tokens s.tokens s.store r.keys (λ _. refl) r.fine (r.coherent u) in
      record {
        keys = evict_expired-IsMap at s.tokens s.tokens s.store r.keys;
        fine = (done "").0;
        coherent = λ u. (done u).1;
        named = r.named;
        hashed = r.hashed;
        shown = λ u. shown_later at before u _ _ (done u);
      }

  changes_password-Refines :
      (hash : String) → Refines now user (update_password hash s) (record g { hash = hash })
  unfolding update_password
  changes_password-Refines hash = record {
    keys = r.keys;
    fine = r.fine;
    coherent = r.coherent;
    named = r.named;
    hashed = refl;
    shown = r.shown;
  }

  step-Refines : (c : ℕ × Call) → c.0 ≤ now → Refines now user (step h c s) (grant_step h user c g)
  unfolding step grant_step
  step-Refines (at, logs_in username password token) before =
      logs_in-Refines at username password token
  step-Refines (at, checks token) before = checks-Refines at token before
  step-Refines (at, logs_out token) before = logs_out-Refines at token
  step-Refines (at, changes_password hash) before = changes_password-Refines hash
  step-Refines (at, logs_out_all) before = logs_out_all-Refines at
  step-Refines (at, evicts) before = evicts-Refines at before

pub run-Refines :
    (h : Hashes) (now : ℕ) (user : String) (calls : List (ℕ × Call)) (s : SessionStore) (g : Grants)
    → AllBefore now calls
    → Refines now user s g
    → Refines now user (run h calls s) (grants h user calls g)
unfolding run grants
run-Refines h now user [] s g before r = r
run-Refines h now user (c ∷ cs) s g before r =
    run-Refines h now user cs (step h c s) (grant_step h user c g) before.1
      (step-Refines h now user s g r c before.0)

-- From a store that stands for an abstract state, with a database whose statements do not fail or
-- with none, after any calls up to now: a token that is not empty passes the check exactly if the
-- abstract state has granted it and its expiry has not passed.
pub run_validates :
    (h : Hashes) (now : ℕ) (user token : String) (calls : List (ℕ × Call)) (s : SessionStore)
    (g : Grants)
    → AllBefore now calls
    → Refines now user s g
    → (token == "") ≡ false
    → (validate_token token now (run h calls s)).1
      ≡ is_some (live now ((grants h user calls g).expiry token))
run_validates h now user token calls s g before r named =
    let r' = run-Refines h now user calls s g before r in
    let s' = run h calls s in
    let ok =
      validate_token-Validates token token now s' named (r'.coherent token) r'.fine
        (r'.coherent token) in
    ok.1 ∙ ap is_some (r'.shown token)
