-- ===== src/Store/Atomic.antt =====
-- Handlers that write once or not at all, and the inversion of a handler that succeeds.
use flux_panel_v.Base.{
  ℕ, ◌≡◌, ◌≢◌, refl, sym, ap, ◌∙◌, Bool, true, false, Option, none, some, if◌then◌else◌, arith,
}
use flux_panel_v.Store.{
  World, Db, Env, Command, Msg, Notice, Result, ok, err, panic, Action, pure, fail, lift, gets,
  check, ◌>>=◌, fail_if, modify_db, send, continue, or_err,
}

-- A success leaves the tables as `g` makes them, a refusal as they were, and nothing panics.
abbrev pub EndsWith : {A : Type 0} → (Db → Db) → Db → Result A × World → Type 0
EndsWith g db (ok a, v) = v.db ≡ g db
EndsWith g db (err m, v) = v.db ≡ db
EndsWith g db (panic, v) = ⊥

abbrev pub unchanged : Db → Db
unchanged db = db

pub record Commits {A : Type 0} (db : Db) (g : Db → Db) (m : Action A) : Type 0 where
  pub at : (w : World) → w.db ≡ db → EndsWith g db (m w)

module _ {A : Type 0} {db : Db} where
  pub Commits-pure : (a : A) → Commits db unchanged (pure a)
  unfolding pure
  Commits-pure a = record { at = λ w h. h }

  pub Commits-fail : {g : Db → Db} (m : Msg) → Commits db g (fail {A = A} m)
  unfolding fail
  Commits-fail m = record { at = λ w h. h }

  pub Commits-gets : (f : Db → A) → Commits db unchanged (gets f)
  unfolding gets
  Commits-gets f = record { at = λ w h. h }

  settled : (r : Result A) (w : World) → r ≢ panic → w.db ≡ db → EndsWith unchanged db (r, w)
  settled (ok a) w n h = h
  settled (err m) w n h = h
  settled panic w n h = n refl

  pub Commits-lift : (r : Result A) → r ≢ panic → Commits db unchanged (lift r)
  unfolding lift
  Commits-lift r n = record { at = λ w h. settled r w n h }

  pub Commits-check : (f : Db → Result A) → f db ≢ panic → Commits db unchanged (check f)
  unfolding check
  Commits-check f n = record { at = λ w h. settled (f w.db) w (λ e. n (ap f (sym h) ∙ e)) h }

  pub Commits-if :
      {g : Db → Db} (b : Bool) (m n : Action A)
      → Commits db g m
      → Commits db g n
      → Commits db g (if b then m else n)
  Commits-if true m n km kn = km
  Commits-if false m n km kn = kn

module _ {db : Db} where
  pub Commits-fail_if : (b : Bool) (m : Msg) → Commits db unchanged (fail_if b m)
  unfolding fail_if
  Commits-fail_if true m = record { at = λ w h. h }
  Commits-fail_if false m = record { at = λ w h. h }

  pub Commits-modify : (g : Db → Db) → Commits db g (modify_db g)
  unfolding modify_db
  Commits-modify g = record { at = λ w h. rw h }

  pub Commits-send : (env : Env) (n : ℕ) (c : Command) → Commits db unchanged (send env n c)
  unfolding send
  Commits-send env n c = record { at = λ w h. h }

module _ {A B : Type 0} {db : Db} {g : Db → Db} where
  Commits-continue :
      (r : Result A) (f : A → Action B) (w : World)
      → EndsWith unchanged db (r, w)
      → ((a : A) → Commits db g (f a))
      → EndsWith g db (continue r f w)
  Commits-continue (ok a) f w h kf = (kf a).at w h
  Commits-continue (err m) f w h kf = h
  Commits-continue panic f w h kf = h

  pub Commits-bind :
      (m : Action A) (f : A → Action B)
      → Commits db unchanged m
      → ((a : A) → Commits db g (f a))
      → Commits db g (m >>= f)
  unfolding ◌>>=◌
  Commits-bind m f km kf = record {
    at = λ w h. let (r, v) = m w in Commits-continue r f v (km.at w h) kf;
  }

pub or_err-ne-panic : {A : Type 0} (o : Option A) (n : Notice) → or_err o n ≢ panic
or_err-ne-panic none n e = cc
or_err-ne-panic (some a) n e = cc

pub ruleset commit_rules = (
  Commits-pure, Commits-fail, Commits-gets, Commits-lift, Commits-check, Commits-if,
  Commits-fail_if, Commits-modify, Commits-send, Commits-bind, or_err-ne-panic,
)

-- What the first step of a successful handler returned, and the run of the rest.
pub record Continues {A B : Type 0} (r : Result A) (v : World) (f : A → Action B) (b : B)
    (u : World) : Type 0 where
  pub value : A
  pub returned : r ≡ ok value
  pub rest : f value v ≡ (ok b, u)

module _ {A B : Type 0} where
  continue-ok :
      (r : Result A) (f : A → Action B) (v : World) {b : B} {u : World}
      → continue r f v ≡ (ok b, u)
      → Continues r v f b u
  continue-ok (ok a) f v e = record { value = a; returned = refl; rest = e }
  continue-ok (err m) f v e = cc
  continue-ok panic f v e = cc

  pub bind-ok :
      (m : Action A) (f : A → Action B) (w : World) {b : B} {u : World}
      → (m >>= f) w ≡ (ok b, u)
      → Continues (m w).0 (m w).1 f b u
  unfolding ◌>>=◌
  bind-ok m f w e = continue-ok (m w).0 f (m w).1 e

  -- A step that reads the tables.
  pub check-ok :
      (c : Db → Result A) (f : A → Action B) (w : World) {b : B} {u : World}
      → (check c >>= f) w ≡ (ok b, u)
      → Continues (c w.db) w f b u
  unfolding ◌>>=◌
  check-ok c f w e = continue-ok (c w.db) f w e

  pub lift-ok :
      (r : Result A) (f : A → Action B) (w : World) {b : B} {u : World}
      → (lift r >>= f) w ≡ (ok b, u)
      → Continues r w f b u
  unfolding ◌>>=◌
  lift-ok r f w e = continue-ok r f w e

  pub gets-ok :
      (g : Db → A) (f : A → Action B) (w : World) {b : B} {u : World}
      → (gets g >>= f) w ≡ (ok b, u)
      → f (g w.db) w ≡ (ok b, u)
  unfolding ◌>>=◌
  gets-ok g f w e = e

module _ {B : Type 0} where
  pub fail_if-ok :
      (t : Bool) (m : Msg) (f : Unit {0} → Action B) (w : World) {b : B} {u : World}
      → (fail_if t m >>= f) w ≡ (ok b, u)
      → (t ≡ false) × (f tt w ≡ (ok b, u))
  unfolding ◌>>=◌ fail_if
  fail_if-ok true m f w e = cc
  fail_if-ok false m f w e = (refl, e)

pub or_err-ok : {A : Type 0} (o : Option A) (n : Notice) {a : A} → or_err o n ≡ ok a → o ≡ some a
or_err-ok none n e = cc
or_err-ok (some b) n e = ground arith

pub pure-ok :
    {A : Type 0} (a : A) {b : A} (w : World) {v : World} → pure a w ≡ (ok b, v) → (a ≡ b) × (w ≡ v)
unfolding pure
pure-ok a w e = (cc, cc)
