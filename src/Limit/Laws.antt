-- ===== src/Limit/Laws.antt =====
-- handlers/ratelimit.go: the limiter against what it promises, without a table and its sweep.
use auditloop.Base.{
  ℕ, ◌+◌, ◌*◌, ◌≤◌, ◌≡◌, refl, sym, ap, ◌∙◌, inl, inr, Bool, true, false, ◌&&◌, Option, none, some,
  List, [], ◌∷◌, arith, ltb, if◌then◌else◌, Bool-cases, Str, eqb, eqb_iff, eqb_refl, any, length,
  All, All-weaken,
}
use mathlib.Core.List.{Memᴰ}
use mathlib.Core.Path.{subst}
use auditloop.Limit.{
  Entries, Call, look_up, put, is_recent, denies, fresh, swept, allow, answers, new_limiter,
}
use auditloop.Limit.Table.{
  HasDistinctKeys, look_up-put, put-HasDistinctKeys, kept_if, keep_if-HasDistinctKeys,
  look_up-keep_if,
}

-- A call is refused if and only if one with its key was let through less than the interval before.
abbrev pub is_refused : ℕ → Str → ℕ → List Call → Bool
is_refused interval key now allowed = any (λ c. eqb c.0 key && is_recent interval now c.1) allowed

-- The answers from the calls that were let through, the latest first.
abbrev pub expected : ℕ → List Call → List Call → List Bool
expected interval [] allowed = []
expected interval ((key, now) ∷ calls) allowed =
    let refused = expected interval calls allowed in
    let passed = expected interval calls ((key, now) ∷ allowed) in
    if is_refused interval key now allowed then false ∷ refused else true ∷ passed

-- No call reads an earlier time than the one before it, the first none before `since`.
abbrev pub IsOrdered : ℕ → List Call → Type 0
IsOrdered since [] = Unit {0}
IsOrdered since ((key, now) ∷ calls) = (since ≤ now) × IsOrdered now calls

any_none {ℓ} :
    {A : Type ℓ} (p : A → Bool) (xs : List A) → All (λ x. p x ≡ false) xs → any p xs ≡ false
any_none p [] h = refl
any_none p (x ∷ xs) (h, hs) = ground (arith, any_none p xs hs)

any_some {ℓ} :
    {A : Type ℓ} (p : A → Bool) (x : A) (xs : List A) → Memᴰ x xs → p x ≡ true → any p xs ≡ true
any_some p x [] m h = elim m [ ]
any_some p x (y ∷ xs) (Memᴰ.head e) h = let h' : p y ≡ true = rw e at h in ground arith
any_some p x (y ∷ xs) (Memᴰ.tail m) h = ground (arith, any_some p x xs m h)

distinct : (s t : Str) → eqb s t ≡ false → s ≡ t → ⊥
distinct s t h e = let r = eqb_refl s in cc (h, r, e)

module _ (interval : ℕ) where
  -- What the entry of a key says about the calls that were let through, up to a time.
  abbrev pub Agrees : ℕ → List Call → Str → Option ℕ → Type 0
  Agrees since allowed k none = All (λ (c : Call). c.0 ≡ k → c.1 + interval ≤ since) allowed
  Agrees since allowed k (some t) =
      Memᴰ (k, t) allowed × All (λ (c : Call). c.0 ≡ k → c.1 ≤ t) allowed

  abbrev pub Represents : ℕ → List Call → Entries → Type 0
  Represents since allowed es =
      HasDistinctKeys es
      × All (λ (c : Call). c.1 ≤ since) allowed
      × ((k : Str) → Agrees since allowed k (look_up k es))

  not_refused :
      (now : ℕ) (key : Str) (allowed : List Call)
      → All (λ (c : Call). c.0 ≡ key → c.1 + interval ≤ now) allowed
      → is_refused interval key now allowed ≡ false
  not_refused now key allowed a = any_none _ allowed (
      All-weaken _ _ allowed
        (λ c f. elim (Bool-cases (eqb c.0 key)) [
          | inl e ↦ let old = f ((eqb_iff c.0 key).0 e) in ground arith
          | inr e ↦ ground arith
        ])
        a)

  denies_lem :
      (since now : ℕ) (key : Str) (allowed : List Call) (o : Option ℕ)
      → since ≤ now
      → Agrees since allowed key o
      → denies interval now o ≡ is_refused interval key now allowed
  denies_lem since now key allowed none h a = sym (
      not_refused now key allowed
        (All-weaken _ _ allowed (λ c f e. let old = f e in omega arith) a))
  denies_lem since now key allowed (some t) h (m, a) =
      elim (Bool-cases (is_recent interval now t)) [
        | inl e ↦ e ∙ sym (any_some _ (key, t) allowed m (ground (arith, eqb_refl key)))
        | inr e ↦
            let old : t + interval ≤ now = ground arith in
            e
            ∙ sym (
                not_refused now key allowed
                  (All-weaken _ _ allowed (λ c f q. let before = f q in omega arith) a))
      ]

  later :
      (since now : ℕ) (allowed : List Call) (k : Str) (o : Option ℕ)
      → since ≤ now
      → Agrees since allowed k o
      → Agrees now allowed k o
  later since now allowed k none h a =
      All-weaken _ _ allowed (λ c f e. let old = f e in omega arith) a
  later since now allowed k (some t) h a = a

  sweeps :
      (now : ℕ) (allowed : List Call) (k : Str) (o : Option ℕ)
      → Agrees now allowed k o
      → Agrees now allowed k (kept_if (fresh interval now) k o)
  sweeps now allowed k none a = a
  sweeps now allowed k (some t) (m, a) = elim (Bool-cases (fresh interval now (k, t))) [
    | inl e ↦ rw e (m, a)
    | inr e ↦
        let old : t + 10 * interval ≤ now = ground arith in
        rw e (All-weaken _ _ allowed (λ c f q. let before = f q in omega arith) a)
  ]

  other_key :
      (since now : ℕ) (key : Str) (allowed : List Call) (k : Str) (o : Option ℕ)
      → since ≤ now
      → eqb key k ≡ false
      → Agrees since allowed k o
      → Agrees now ((key, now) ∷ allowed) k o
  other_key since now key allowed k none h e a =
      ((λ q. absurd (distinct key k e q)), later since now allowed k none h a)
  other_key since now key allowed k (some t) h e (m, a) =
      (Memᴰ.tail m, ((λ q. absurd (distinct key k e q)), a))

  lets_through :
      (since now : ℕ) (key : Str) (allowed : List Call) (es : Entries) (k : Str)
      → since ≤ now
      → All (λ (c : Call). c.1 ≤ since) allowed
      → Agrees since allowed k (look_up k es)
      → Agrees now ((key, now) ∷ allowed) k (if eqb key k then some now else look_up k es)
  lets_through since now key allowed es k h before a = elim (Bool-cases (eqb key k)) [
    | inl e ↦
        let same : key ≡ k = (eqb_iff key k).0 e in
        rw e (
          Memᴰ.head (ap (λ k. (k, now)) (sym same)),
          ((λ q. omega arith), All-weaken _ _ allowed (λ c b q. omega arith) before),
        )
    | inr e ↦ rw e (other_key since now key allowed k (look_up k es) h e a)
  ]

  Represents-put :
      (since now : ℕ) (key : Str) (allowed : List Call) (es : Entries)
      → since ≤ now
      → Represents since allowed es
      → Represents now ((key, now) ∷ allowed) (swept interval now (put key now es))
  Represents-put since now key allowed es h (distinct_keys, before, agrees) =
      let ds = put-HasDistinctKeys key now es distinct_keys in
      let bs : All (λ (c : Call). c.1 ≤ now) ((key, now) ∷ allowed) =
        (omega arith, All-weaken _ _ allowed (λ c b. omega arith) before) in
      let after : (k : Str) → Agrees now ((key, now) ∷ allowed) k (look_up k (put key now es)) =
        λ k.
          subst (Agrees now ((key, now) ∷ allowed) k) (sym (look_up-put k key now es))
            (lets_through since now key allowed es k h before (agrees k)) in
      elim (Bool-cases (ltb 256 (length (put key now es)))) [
        | inr e ↦ rw e (ds, bs, after)
        | inl e ↦ rw e (
          keep_if-HasDistinctKeys (fresh interval now) (put key now es) ds,
          bs,
          λ k.
              subst (Agrees now ((key, now) ∷ allowed) k)
                (sym (look_up-keep_if (fresh interval now) k (put key now es) ds))
                (sweeps now ((key, now) ∷ allowed) k (look_up k (put key now es)) (after k)),
        )
      ]

  answers_from :
      (calls : List Call) (since : ℕ) (allowed : List Call) (es : Entries)
      → IsOrdered since calls
      → Represents since allowed es
      → answers calls (record { min_interval = interval; last = es })
        ≡ expected interval calls allowed
  unfolding answers allow
  answers_from [] since allowed es o r = refl
  answers_from ((key, now) ∷ calls) since allowed es (h, o) (ds, before, agrees) =
      let same = denies_lem since now key allowed (look_up key es) h (agrees key) in
      elim (Bool-cases (is_refused interval key now allowed)) [
        | inl e ↦
            rw (same, e)
              (ap (λ bs. false ∷ bs)
                (answers_from calls now allowed es o (
                  ds,
                  All-weaken _ _ allowed (λ c b. omega arith) before,
                  λ k. later since now allowed k (look_up k es) h (agrees k),
                )))
        | inr e ↦
            rw (same, e)
              (ap (λ bs. true ∷ bs)
                (answers_from calls now ((key, now) ∷ allowed) (swept interval now (put key now es))
                  o (Represents-put since now key allowed es h (ds, before, agrees))))
      ]

-- For calls whose times do not go back, a new limiter answers each call exactly as its contract says:
-- it lets a call through unless one with the same key was let through less than the interval before.
-- That the map forgets its old entries is never seen.
pub answers-expected :
    (interval : ℕ) (calls : List Call)
    → IsOrdered 0 calls
    → answers calls (new_limiter interval) ≡ expected interval calls []
answers-expected interval calls o = answers_from interval calls 0 [] [] o (tt, tt, λ k. tt)
