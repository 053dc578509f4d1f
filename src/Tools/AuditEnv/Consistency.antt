-- ===== src/Tools/AuditEnv/Consistency.antt =====
-- What the exit code of the audit says of the scopes.
use nestjs_microservice_mono.Prelude.{
  String, ◌≡◌, ◌↔◌, refl, inl, inr, Bool-cases, Bool, true, false, not, ◌&&◌, ◌||◌, List, [], ◌∷◌,
  keep, All, arith,
}
use nestjs_microservice_mono.Users.Common.{and-true}
use nestjs_microservice_mono.Tools.AuditEnv.{
  Scope, Collected, scopes, has, effective_fields, observability_vars, bootstrap_only,
  reserved_stubs, is_nil, is_consistent, gaps, all_consistent, audit_exit_code,
}

-- What the report calls consistent, with the exemptions that the script lists.
pub record IsConsistent (scope : Scope) (c : Collected) : Type 0 where
  pub declared :
      All
        (λ k.
          has (effective_fields scope c) k
            || (has observability_vars k || has (bootstrap_only scope.name) k)
          ≡ true)
        c.code_reads
  pub read :
      All
        (λ k.
          has c.code_reads k
            || (has (reserved_stubs scope.name) k || has (bootstrap_only scope.name) k)
          ≡ true)
        (effective_fields scope c)
  pub documented : All (λ k. has c.env_declared k || has observability_vars k ≡ true) c.code_reads
  pub fresh :
      All
        (λ k.
          has c.code_reads k
            || (has observability_vars k
                || (has (effective_fields scope c) k || has (reserved_stubs scope.name) k))
          ≡ true)
        c.env_declared

-- A filter keeps nothing exactly if every member fails its test.
keep-nil_cons :
    (p : String → Bool) (x : String) (xs : List String)
    → is_nil (keep p (x ∷ xs)) ≡ true
    → (p x ≡ false) × (is_nil (keep p xs) ≡ true)
keep-nil_cons p x xs h = elim (Bool-cases (p x)) [
  | inl kept ↦ cc (rw kept at h)
  | inr gone ↦ (gone, rw gone at h)
]

keep-nil :
    (p q : String → Bool) (xs : List String)
    → ((k : String) → p k ≡ not (q k))
    → is_nil (keep p xs) ≡ true
    → All (λ k. q k ≡ true) xs
keep-nil p q [] dual h = tt
keep-nil p q (x ∷ xs) dual h =
    let (gone, none_left) = keep-nil_cons p x xs h in
    (ground (arith, dual x), keep-nil p q xs dual none_left)

nil-keep :
    (p q : String → Bool) (xs : List String)
    → ((k : String) → p k ≡ not (q k))
    → All (λ k. q k ≡ true) xs
    → is_nil (keep p xs) ≡ true
nil-keep p q [] dual h = refl
nil-keep p q (x ∷ xs) dual h =
    let first = h.0 in let rest = nil-keep p q xs dual h.1 in ground (arith, dual x)

de_morgan2 : (a b : Bool) → (not a && not b) ≡ not (a || b)
de_morgan2 a b = ground arith

de_morgan3 : (a b c : Bool) → (not a && (not b && not c)) ≡ not (a || (b || c))
de_morgan3 a b c = ground arith

de_morgan4 : (a b c d : Bool) → (not a && (not b && (not c && not d))) ≡ not (a || (b || (c || d)))
de_morgan4 a b c d = ground arith

all_true :
    (a b c d : Bool) → a ≡ true → b ≡ true → c ≡ true → d ≡ true → (a && (b && (c && d))) ≡ true
all_true a b c d p q r s = ground arith

module _ (s : Scope) (c : Collected) where
  undeclared :
      (k : String)
      → (not (has (effective_fields s c) k)
          && (not (has observability_vars k) && not (has (bootstrap_only s.name) k)))
        ≡ not (
            has (effective_fields s c) k
            || (has observability_vars k || has (bootstrap_only s.name) k))
  undeclared k =
      de_morgan3 (has (effective_fields s c) k) (has observability_vars k)
        (has (bootstrap_only s.name) k)

  unread :
      (k : String)
      → (not (has c.code_reads k)
          && (not (has (reserved_stubs s.name) k) && not (has (bootstrap_only s.name) k)))
        ≡ not
            (has c.code_reads k || (has (reserved_stubs s.name) k || has (bootstrap_only s.name) k))
  unread k =
      de_morgan3 (has c.code_reads k) (has (reserved_stubs s.name) k)
        (has (bootstrap_only s.name) k)

  undocumented :
      (k : String)
      → (not (has c.env_declared k) && not (has observability_vars k))
        ≡ not (has c.env_declared k || has observability_vars k)
  undocumented k = de_morgan2 _ _

  stale :
      (k : String)
      → (not (has c.code_reads k)
          && (not (has observability_vars k)
              && (not (has (effective_fields s c) k) && not (has (reserved_stubs s.name) k))))
        ≡ not (
            has c.code_reads k
            || (has observability_vars k
                || (has (effective_fields s c) k || has (reserved_stubs s.name) k)))
  stale k =
      de_morgan4 (has c.code_reads k) (has observability_vars k) (has (effective_fields s c) k)
        (has (reserved_stubs s.name) k)

  -- A scope has no gap exactly if it is consistent.
  gaps_iff : (is_consistent (gaps s c) ≡ true) ↔ IsConsistent s c
  unfolding gaps
  gaps_iff = (
    λ h.
        let (a, h') = and-true (is_nil (gaps s c).reads_minus_config) _ h in
        let (b, h'') = and-true (is_nil (gaps s c).config_minus_reads) _ h' in
        let (e, f) = and-true (is_nil (gaps s c).reads_minus_env) _ h'' in
        record {
          declared = keep-nil _ _ c.code_reads undeclared a;
          read = keep-nil _ _ (effective_fields s c) unread b;
          documented = keep-nil _ _ c.code_reads undocumented e;
          fresh = keep-nil _ _ c.env_declared stale f;
        },
    λ k.
        all_true _ _ _ _ (nil-keep _ _ c.code_reads undeclared k.declared)
          (nil-keep _ _ (effective_fields s c) unread k.read)
          (nil-keep _ _ c.code_reads undocumented k.documented)
          (nil-keep _ _ c.env_declared stale k.fresh),
  )

all_consistent_iff :
    (collect : Scope → Collected) (ss : List Scope)
    → (all_consistent collect ss ≡ true) ↔ All (λ s. IsConsistent s (collect s)) ss
unfolding all_consistent
all_consistent_iff collect [] = (λ h. tt, λ h. refl)
all_consistent_iff collect (s ∷ ss) = (
  λ h.
      let (a, b) = and-true (is_consistent (gaps s (collect s))) _ h in
      ((gaps_iff s (collect s)).0 a, (all_consistent_iff collect ss).0 b),
  λ (a, b).
      let first = (gaps_iff s (collect s)).1 a in
      let rest = (all_consistent_iff collect ss).1 b in rw (first, rest) refl,
)

-- The audit exits with 0 exactly if in every scope each name that the code reads is declared on its
-- config or exempt, each declared field is read or exempt, each name read is in .env.example or one
-- of the observability's, and each name of .env.example is read, declared or exempt.
pub audit_exit_code_iff :
    (collect : Scope → Collected)
    → (audit_exit_code collect ≡ 0) ↔ All (λ s. IsConsistent s (collect s)) scopes
unfolding audit_exit_code
audit_exit_code_iff collect = (
  λ h. elim (Bool-cases (all_consistent collect scopes)) [
    | inl yes' ↦ (all_consistent_iff collect scopes).0 yes'
    | inr no' ↦ absurd (omega (arith, rw no' at h))
  ],
  λ k. let consistent = (all_consistent_iff collect scopes).1 k in rw consistent refl,
)
