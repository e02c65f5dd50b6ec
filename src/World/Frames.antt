-- ===== src/World/Frames.antt =====
-- Computations that leave a part of the database as it is.
use open_dating.Prelude.{◌≡◌, refl, ap, ◌∙◌, String, Result, ok, thrown}
use open_dating.Store.{Db}
use open_dating.World.{Run, ◌>>=◌}

module _ {κ μ} {A : Type κ} {B : Type μ} (m : Run A) (k : A → Run B) where
  continue_with : Result A × Db → Result B × Db
  continue_with (ok a, db) = k a db
  continue_with (thrown e, db) = (thrown e, db)

  bind-continue_with :
      (p : Result A × Db)
      → (elim p.0 [ ok a ↦ k a p.1 | thrown e ↦ (thrown e, p.1) ]) ≡ continue_with p
  unfolding continue_with
  bind-continue_with (ok a, db) = refl
  bind-continue_with (thrown e, db) = refl

  -- A step that returns or throws, and what follows it.
  pub bind-ok : (db : Db) {a : A} {d : Db} → m db ≡ (ok a, d) → (m >>= k) db ≡ k a d
  unfolding continue_with
  bind-ok db h = bind-continue_with (m db) ∙ ap continue_with h

  pub bind-thrown :
      (db : Db) {e : String} {d : Db} → m db ≡ (thrown e, d) → (m >>= k) db ≡ (thrown e, d)
  unfolding continue_with
  bind-thrown db h = bind-continue_with (m db) ∙ ap continue_with h

module _ {ℓ} {X : Type ℓ} (part : Db → X) where
  -- Whatever the database is, the part after the computation is the part before it.
  abbrev pub Keeps {κ} : {A : Type κ} → Run A → Type ℓ
  Keeps m = (db : Db) → part (m db).1 ≡ part db

  module _ {κ μ} {A : Type κ} {B : Type μ} (m : Run A) (k : A → Run B) where
    continue_with-Keeps :
        ((a : A) → Keeps (k a)) → (p : Result A × Db) → part (continue_with m k p).1 ≡ part p.1
    unfolding continue_with
    continue_with-Keeps h (ok a, db) = h a db
    continue_with-Keeps h (thrown e, db) = refl

    pub bind-Keeps : Keeps m → ((a : A) → Keeps (k a)) → Keeps (m >>= k)
    bind-Keeps h hk db =
        ap (λ p. part p.1) (bind-continue_with m k (m db)) ∙ continue_with-Keeps hk (m db) ∙ h db
