-- ===== src/Migrate/Steps.antt =====
-- What one migration step records.
use nestjs_microservice_mono.Prelude.{
  String, ◌≡◌, refl, sym, true, Option, none, some, List, [], ◌∷◌, ◌++◌, inl, inr, In, any, ◌==◌,
  eq_iff, Bool-cases,
}
use nestjs_microservice_mono.Errors.Defs.{Thrown, Outcome, ok, err}
use nestjs_microservice_mono.Migrate.{Migration, Migrated, insert_id, after_up, apply_migration}

pub any-In : (i : String) (known : List String) → any (λ k. k == i) known ≡ true → In i known
any-In i [] h = cc
any-In i (k ∷ ks) h = elim (Bool-cases (k == i)) [
  | inl same ↦ inl (sym ((eq_iff k i).0 same))
  | inr other ↦ inr (any-In i ks (rw other at h))
]

pub In-any : (i : String) (known : List String) → In i known → any (λ k. k == i) known ≡ true
In-any i [] h = elim h [ ]
In-any i (k ∷ ks) (inl e) = rw ((eq_iff k i).1 (sym e))
In-any i (k ∷ ks) (inr h) = elim (Bool-cases (k == i)) [
  | inl same ↦ rw same
  | inr other ↦ rw other (In-any i ks h)
]

In-left : (i j : String) (xs : List String) → In i xs → In i (xs ++ j ∷ [])
In-left i j [] h = elim h [ ]
In-left i j (x ∷ xs) (inl e) = inl e
In-left i j (x ∷ xs) (inr h) = inr (In-left i j xs h)

In-end : (i : String) (xs : List String) → In i (xs ++ i ∷ [])
In-end i [] = inl refl
In-end i (x ∷ xs) = inr (In-end i xs)

module _ {D : Type 0} (insert_one : String → Option Thrown) where
  -- A step keeps what was recorded, and records its script if it succeeds.
  insert_id-keeps :
      (i j : String) (s : Migrated D) (o : Option Thrown)
      → In i s.applied
      → In i (insert_id insert_one j s o).1.applied
  unfolding insert_id
  insert_id-keeps i j s none h = In-left i j s.applied h
  insert_id-keeps i j s (some e) h = h

  after_up-keeps :
      (i j : String) (s : Migrated D) (o : Outcome (Unit {0})) (db : D)
      → In i s.applied
      → In i (after_up insert_one j s (o, db)).1.applied
  unfolding after_up
  after_up-keeps i j s (ok _) db h = insert_id-keeps i j _ (insert_one j) h
  after_up-keeps i j s (err e) db h = h

  pub apply_migration-keeps :
      (i : String) (m : Migration D) (s : Migrated D)
      → In i s.applied
      → In i (apply_migration insert_one m s).1.applied
  unfolding apply_migration
  apply_migration-keeps i m s h = after_up-keeps i m.id s (m.up s.db).0 (m.up s.db).1 h

  insert_id-records :
      (i : String) (s : Migrated D) (o : Option Thrown)
      → (insert_id insert_one i s o).0 ≡ ok tt
      → In i (insert_id insert_one i s o).1.applied
  unfolding insert_id
  insert_id-records i s none h = In-end i s.applied
  insert_id-records i s (some e) h = cc

  after_up-records :
      (i : String) (s : Migrated D) (o : Outcome (Unit {0})) (db : D)
      → (after_up insert_one i s (o, db)).0 ≡ ok tt
      → In i (after_up insert_one i s (o, db)).1.applied
  unfolding after_up
  after_up-records i s (ok _) db h = insert_id-records i _ (insert_one i) h
  after_up-records i s (err e) db h = cc

  pub apply_migration-records :
      (m : Migration D) (s : Migrated D)
      → (apply_migration insert_one m s).0 ≡ ok tt
      → In m.id (apply_migration insert_one m s).1.applied
  unfolding apply_migration
  apply_migration-records m s h = after_up-records m.id s (m.up s.db).0 (m.up s.db).1 h
