-- ===== src/OAuth/SingleUse.antt =====
-- A state is good for one callback.
use yaxter.Common.{
  ℕ, ◌≡◌, ◌≢◌, refl, ap, ◌∙◌, Bool, Option, none, some, List, [], ◌∷◌, err, arith, All,
}
use yaxter.Common.Decimal.{Text}
use yaxter.Redis.{Outcome, answered, refused, lost}
use yaxter.OAuth.Accounts.{Db, invalid_state, Env}
use yaxter.OAuth.{
  Mode, Provider, States, StartEnv, start, start_with, start_tokens, set_outcome, parse, consume,
  callback, callback_with, callback_data,
}

-- What other requests do to the states: a `Start`, or a `Callback` with its outcome of GETDEL.
pub data Event : Type 0 where
  starts : StartEnv → ℕ → Text → Mode → ℕ → Event
  calls_back : ℕ → Env → (ℕ → Bool) → Outcome → ℕ → ℕ → ℕ → Db → Event

module _ {S : Type 0} (r : States S) (providers : ℕ → Option Provider) (callback_uri : ℕ → Text)
    (challenge : ℕ → ℕ) where
  unfoldable pub event : Event → S → S
  event (starts e provider redirect mode user) s =
      (start r providers callback_uri challenge e provider redirect mode user s).1
  event (calls_back fuel e lookups o provider code state db) s =
      (callback r providers callback_uri challenge fuel e lookups o provider code state s db).1

  unfoldable pub events : List Event → S → S
  events [] s = s
  events (x ∷ xs) s = events xs (event x s)

  -- No `Start` draws the token again.
  abbrev pub IsOther : ℕ → Event → Type 0
  IsOther state (starts e provider redirect mode user) = e.state ≢ some state
  IsOther state (calls_back fuel e lookups o provider code state' db) = Unit {0}

  tokens-absent :
      (state : ℕ) (o : Outcome) (p : Provider) (provider : ℕ) (redirect : Text) (mode : Mode)
      (user : ℕ) (t v : Option ℕ) (s : S)
      → t ≢ some state
      → r.find state s ≡ none
      → r.find state
          (start_tokens r providers callback_uri challenge o p provider redirect mode user t v s).1
        ≡ none
  unfolding start_tokens set_outcome
  tokens-absent state o p provider redirect mode user none v s ne h = h
  tokens-absent state o p provider redirect mode user (some t) none s ne h = h
  tokens-absent state answered p provider redirect mode user (some t) (some v) s ne h =
      r.find_set state t _ s ∙ ground (arith, ne)
  tokens-absent state refused p provider redirect mode user (some t) (some v) s ne h = h
  tokens-absent state lost p provider redirect mode user (some t) (some v) s ne h =
      r.find_set state t _ s ∙ ground (arith, ne)

  with-absent :
      (state : ℕ) (fuel : ℕ) (e : Env) (lookups : ℕ → Bool) (o : Outcome) (q : Option Provider)
      (provider code state' : ℕ) (s : S) (db : Db)
      → r.find state s ≡ none
      → r.find state
          (callback_with r providers callback_uri challenge fuel e lookups o q provider code state'
            s db).1
        ≡ none
  unfolding callback_with consume
  with-absent state fuel e lookups o none provider code state' s db h = h
  with-absent state fuel e lookups answered (some p) provider code state' s db h =
      r.find_del state state' s ∙ ground arith
  with-absent state fuel e lookups refused (some p) provider code state' s db h = h
  with-absent state fuel e lookups lost (some p) provider code state' s db h =
      r.find_del state state' s ∙ ground arith

  start-absent :
      (state : ℕ) (e : StartEnv) (q : Option Provider) (provider : ℕ) (redirect : Text)
      (mode : Mode) (user : ℕ) (s : S)
      → e.state ≢ some state
      → r.find state s ≡ none
      → r.find state
          (start_with r providers callback_uri challenge e q provider redirect mode user s).1
        ≡ none
  unfolding start_with
  start-absent state e none provider redirect mode user s ne h = h
  start-absent state e (some p) provider redirect mode user s ne h =
      tokens-absent state e.stored p provider redirect mode user e.state e.verifier s ne h

  event-absent :
      (state : ℕ) (x : Event) (s : S)
      → IsOther state x
      → r.find state s ≡ none
      → r.find state (event x s) ≡ none
  unfolding event start callback
  event-absent state (starts e provider redirect mode user) s ne h =
      start-absent state e (providers provider) provider redirect mode user s ne h
  event-absent state (calls_back fuel e lookups o provider code state' db) s ne h =
      with-absent state fuel e lookups o (providers provider) provider code state' s db h

  events-absent :
      (state : ℕ) (xs : List Event) (s : S)
      → All (IsOther state) xs
      → r.find state s ≡ none
      → r.find state (events xs s) ≡ none
  unfolding events
  events-absent state [] s others h = h
  events-absent state (x ∷ xs) s others h =
      events-absent state xs (event x s) others.1 (event-absent state x s others.0 h)

  consumed :
      (o : Outcome) (provider state : ℕ) (s : S)
      → o ≢ refused
      → r.find state (consume r providers callback_uri challenge o provider state s).1 ≡ none
  unfolding consume
  consumed answered provider state s ne = r.find_del state state s ∙ ground arith
  consumed refused provider state s ne = absurd (ne refl)
  consumed lost provider state s ne = r.find_del state state s ∙ ground arith

  callback-consumed :
      (fuel : ℕ) (e : Env) (lookups : ℕ → Bool) (o : Outcome) (provider code state : ℕ) (s : S)
      (db : Db) (p : Provider)
      → providers provider ≡ some p
      → o ≢ refused
      → r.find state
          (callback r providers callback_uri challenge fuel e lookups o provider code state s db).1
        ≡ none
  unfolding callback callback_with
  callback-consumed fuel e lookups o provider code state s db p hp ne =
      ap
        (λ q.
          r.find state
            (callback_with r providers callback_uri challenge fuel e lookups o q provider code state
              s db).1)
        hp
      ∙ consumed o provider state s ne

  callback-absent :
      (fuel : ℕ) (e : Env) (lookups : ℕ → Bool) (provider code state : ℕ) (s : S) (db : Db)
      (p : Provider)
      → providers provider ≡ some p
      → r.find state s ≡ none
      → (callback r providers callback_uri challenge fuel e lookups answered provider code state s
          db).0
        ≡ some (err invalid_state)
  unfolding callback callback_with consume callback_data
  callback-absent fuel e lookups provider code state s db p hp absent =
      ap
        (λ q.
          (callback_with r providers callback_uri challenge fuel e lookups answered q provider code
            state s db).0)
        hp
      ∙ ap
          (λ d.
            callback_data r providers callback_uri challenge fuel e lookups p provider code
              (parse r providers callback_uri challenge provider d) db)
          absent

  -- A state works at most once: after a callback of an enabled provider whose GETDEL took effect,
  -- whether the sign-in succeeded or not, and after any events in which no `Start` draws the same
  -- token again, every callback with that state that Redis answers is refused with
  -- `invalid_state`.
  pub callback-replayed :
      (fuel : ℕ) (e : Env) (lookups : ℕ → Bool) (o : Outcome) (provider code state : ℕ) (s : S)
      (db : Db) (xs : List Event) (fuel' : ℕ) (e' : Env) (lookups' : ℕ → Bool) (provider' code' : ℕ)
      (db' : Db) (p p' : Provider)
      → providers provider ≡ some p
      → providers provider' ≡ some p'
      → o ≢ refused
      → All (IsOther state) xs
      → (callback r providers callback_uri challenge fuel' e' lookups' answered provider' code'
          state
          (events xs
            (callback r providers callback_uri challenge fuel e lookups o provider code state s
              db).1)
          db').0
        ≡ some (err invalid_state)
  callback-replayed fuel e lookups o provider code state s db xs fuel' e' lookups' provider' code'
        db' p p' hp hp' ne others =
      callback-absent fuel' e' lookups' provider' code' state _ db' p' hp' (
        events-absent state xs _ others
          (callback-consumed fuel e lookups o provider code state s db p hp ne))
