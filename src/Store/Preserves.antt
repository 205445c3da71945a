-- ===== src/Store/Preserves.antt =====
-- Handlers that keep a property of the tables, whatever they return.
use flux_panel_v.Base.{ℕ, ◌≡◌, refl, Bool, true, false, if◌then◌else◌}
use flux_panel_v.Store.{
  Db, World, Env, Command, Result, ok, err, panic, Msg, Action, pure, fail, lift, gets, check,
  ◌>>=◌, fail_if, modify_db, send, continue,
}

pub record Preserves {A : Type 0} (P : Db → Type 0) (m : Action A) : Type 0 where
  pub after : (w : World) → P w.db → P (m w).1.db

module _ {A : Type 0} {P : Db → Type 0} where
  pub Preserves-pure : (a : A) → Preserves P (pure a)
  unfolding ◌>>=◌
  Preserves-pure a = record { after = λ w h. h }

  pub Preserves-fail : (m : Msg) → Preserves P (fail {A = A} m)
  unfolding ◌>>=◌
  Preserves-fail m = record { after = λ w h. h }

  pub Preserves-lift : (r : Result A) → Preserves P (lift r)
  unfolding ◌>>=◌
  Preserves-lift r = record { after = λ w h. h }

  pub Preserves-gets : (f : Db → A) → Preserves P (gets f)
  unfolding ◌>>=◌
  Preserves-gets f = record { after = λ w h. h }

  pub Preserves-check : (f : Db → Result A) → Preserves P (check f)
  unfolding ◌>>=◌
  Preserves-check f = record { after = λ w h. h }

  pub Preserves-if :
      (b : Bool) (m n : Action A) → Preserves P m → Preserves P n → Preserves P (if b then m else n)
  Preserves-if true m n km kn = km
  Preserves-if false m n km kn = kn

  -- A handler that may refuse its write.
  pub Preserves-refusal :
      (b : Db → Bool) (e : Msg) (g : World → Result A × World)
      → ((w : World) → P w.db → P (g w).1.db)
      → Preserves P (λ w. if b w.db then (err e, w) else g w)
  Preserves-refusal b e g h = record { after = λ w p. either (b w.db) w p }
    where
      refuse_or : Bool → World → Result A × World
      refuse_or t w = if t then (err e, w) else g w

      either : (t : Bool) (w : World) → P w.db → P (refuse_or t w).1.db
      either true w p = p
      either false w p = h w p

module _ {A B : Type 0} {P : Db → Type 0} where
  continue-after :
      (r : Result A) (f : A → Action B) (w : World)
      → ((a : A) → r ≡ ok a → Preserves P (f a))
      → P w.db
      → P (continue r f w).1.db
  continue-after (ok a) f w kf h = (kf a refl).after w h
  continue-after (err m) f w kf h = h
  continue-after panic f w kf h = h

  pub Preserves-bind :
      (m : Action A) (f : A → Action B)
      → Preserves P m
      → ((a : A) → Preserves P (f a))
      → Preserves P (m >>= f)
  unfolding ◌>>=◌
  Preserves-bind m f km kf = record {
    after = λ w h. let (r, v) = m w in continue-after r f v (λ a e. kf a) (km.after w h);
  }

  -- The rest of the handler, for the values that its first part returns.
  pub Preserves-bind_of :
      (m : Action A) (f : A → Action B)
      → Preserves P m
      → ((w : World) (a : A) → P w.db → (m w).0 ≡ ok a → Preserves P (f a))
      → Preserves P (m >>= f)
  unfolding ◌>>=◌
  Preserves-bind_of m f km kf = record {
    after = λ w h. let (r, v) = m w in continue-after r f v (λ a e. kf w a h e) (km.after w h);
  }

module _ {A B : Type 0} {P : Db → Type 0} (Q : Db → Type 0) where
  continue-leads :
      (r : Result A) (f : A → Action B) (w : World)
      → ((db : Db) → P db → Q db)
      → ((a : A) (v : World) → P v.db → Q (f a v).1.db)
      → P w.db
      → Q (continue r f w).1.db
  continue-leads (ok a) f w weaken k h = k a w h
  continue-leads (err m) f w weaken k h = weaken w.db h
  continue-leads panic f w weaken k h = weaken w.db h

  -- A handler whose last part ends in something weaker.
  pub bind-leads :
      (m : Action A) (f : A → Action B)
      → Preserves P m
      → ((db : Db) → P db → Q db)
      → ((a : A) (v : World) → P v.db → Q (f a v).1.db)
      → (w : World) → P w.db
      → Q ((m >>= f) w).1.db
  unfolding ◌>>=◌
  bind-leads m f km weaken k w h = let (r, v) = m w in continue-leads r f v weaken k (km.after w h)

module _ {P : Db → Type 0} where
  pub Preserves-fail_if : (b : Bool) (m : Msg) → Preserves P (fail_if b m)
  unfolding fail_if
  Preserves-fail_if b m = record { after = λ w h. h }

  pub Preserves-send : (env : Env) (n : ℕ) (c : Command) → Preserves P (send env n c)
  unfolding send
  Preserves-send env n c = record { after = λ w h. h }

  pub Preserves-modify : (g : Db → Db) → ((db : Db) → P db → P (g db)) → Preserves P (modify_db g)
  unfolding modify_db
  Preserves-modify g h = record { after = λ w p. h w.db p }

pub ruleset preserving = (
  Preserves-pure, Preserves-fail, Preserves-lift, Preserves-gets, Preserves-check, Preserves-if,
  Preserves-bind, Preserves-fail_if, Preserves-send,
)
