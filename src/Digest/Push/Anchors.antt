-- ===== src/Digest/Push/Anchors.antt =====
-- internal/plugin/a11y.go: the verdicts on the anchors that the loops of a push collect.
use auditloop.Base.{
  ◌≡◌, refl, sym, ap, inl, inr, Bool, true, false, Option, none, some, List, [], ◌∷◌, arith,
  Bool-cases, Str, eqb, eqb_iff, one_of, length, All,
}
use mathlib.Core.Path.{subst}
use auditloop.Digest.{concrete_keys}
use auditloop.Digest.Push.{
  Checked, Verdicts, and_then, disagrees, put, check_keys, check_prog, each,
}

pub and_then_ok {ℓ} :
    {A B : Type ℓ} (r : Checked A) (f : A → Checked B) (b : B)
    → and_then r f ≡ inr b
    → (a : A) × (r ≡ inr a) × (f a ≡ inr b)
and_then_ok (inl e) f b h = cc
and_then_ok (inr a) f b h = (a, refl, h)

-- Later verdicts hold all earlier ones.
abbrev pub Extends : Verdicts → Verdicts → Type 0
Extends seen later = (k : Str) (prog : Bool) → seen k ≡ some prog → later k ≡ some prog

-- The verdicts hold that of an element at each of its anchors.
abbrev pub Records : Verdicts → Str × Bool → Type 0
Records seen (selector, prog) =
    (k : Str) → one_of k (concrete_keys selector) ≡ true → seen k ≡ some prog

pub Records-later :
    (seen later : Verdicts) (row : Str × Bool)
    → Extends seen later
    → Records seen row
    → Records later row
Records-later seen later (selector, prog) x h k m = x k prog (h k m)

-- Two elements that the same verdicts hold agree at a common anchor.
pub Records-agree :
    (seen : Verdicts) (r r' : Str × Bool) (k : Str)
    → Records seen r
    → Records seen r'
    → one_of k (concrete_keys r.0) ≡ true
    → one_of k (concrete_keys r'.0) ≡ true
    → r.1 ≡ r'.1
Records-agree seen (s, p) (s', p') k h h' m m' = cc (h k m, h' k m')

agrees_lem :
    (o : Option Bool) (prog prev : Bool) → disagrees o prog ≡ false → o ≡ some prev → prev ≡ prog
agrees_lem none prog prev h q = cc
agrees_lem (some true) true prev h q = cc
agrees_lem (some true) false prev h q = cc
agrees_lem (some false) true prev h q = cc
agrees_lem (some false) false prev h q = cc

put-Extends :
    (k : Str) (prog : Bool) (seen : Verdicts)
    → disagrees (seen k) prog ≡ false
    → Extends seen (put k prog seen)
put-Extends k prog seen h j prev q = elim (Bool-cases (eqb j k)) [
  | inr e ↦ rw e q
  | inl e ↦
      let at : seen k ≡ some prev = rw ((eqb_iff j k).0 e) at q in
      rw e (ap some (sym (agrees_lem (seen k) prog prev h at)))
]

check_keys_lem :
    (ks : List Str) (prog : Bool) (seen later : Verdicts)
    → check_keys ks prog seen ≡ inr later
    → Extends seen later × ((k : Str) → one_of k ks ≡ true → later k ≡ some prog)
unfolding check_keys one_of
check_keys_lem [] prog seen later h = ((λ k prev q. cc), λ k m. cc)
check_keys_lem (k ∷ ks) prog seen later h = elim (Bool-cases (disagrees (seen k) prog)) [
  | inl e ↦ absurd (cc (rw e at h))
  | inr e ↦
      let (x, all_put) = check_keys_lem ks prog (put k prog seen) later (rw e at h) in
      (
        (λ j prev q. x j prev (put-Extends k prog seen e j prev q)),
        λ j m. elim (Bool-cases (eqb j k)) [
          | inl q ↦ x j prog (rw q refl)
          | inr q ↦ all_put j (rw q at m)
        ],
      )
]

pub check_prog_lem :
    (selector : Str) (prog : Bool) (seen later : Verdicts)
    → check_prog selector prog seen ≡ inr later
    → Extends seen later × Records later (selector, prog)
unfolding check_prog
check_prog_lem selector prog seen later h =
    check_keys_lem (concrete_keys selector) prog seen later h

-- A loop whose turns add to the verdicts and give a good element: so does the loop.
module _ {ℓ} {A : Type ℓ} (f : A → Verdicts → Checked (A × Verdicts))
    (Good : A → Verdicts → Type 0) where
  abbrev pub IsTurn : Type ℓ
  IsTurn =
      (x y : A) (seen later : Verdicts)
      → f x seen ≡ inr (y, later)
      → Extends seen later × Good y later

  abbrev pub Ends : Verdicts → List A → List A × Verdicts → Type 0
  Ends seen xs (ys, later) =
      Extends seen later × All (λ y. Good y later) ys × (length ys ≡ length xs)

  pub each_lem :
      IsTurn
      → ((y : A) (seen later : Verdicts) → Extends seen later → Good y seen → Good y later)
      → (xs : List A) (seen : Verdicts) (r : List A × Verdicts) → each f xs seen ≡ inr r
      → Ends seen xs r
  unfolding each
  each_lem turn mono [] seen r h =
      let nothing : Ends seen [] ([], seen) = ((λ k prog q. q), tt, refl) in
      let same : ([], seen) ≡ r = cc h in subst (λ r. Ends seen [] r) same nothing
  each_lem turn mono (x ∷ xs) seen r h =
      let ((y, mid), e, h') = and_then_ok (f x seen) _ _ h in
      let ((zs, end), e', h'') = and_then_ok (each f xs mid) _ _ h' in
      let (x1, good) = turn x y seen mid e in
      let (x2, goods, l) = each_lem turn mono xs mid (zs, end) e' in
      let all_good : Ends seen (x ∷ xs) (y ∷ zs, end) =
        ((λ k prog q. x2 k prog (x1 k prog q)), (mono y mid end x2 good, goods), ground arith) in
      let same : (y ∷ zs, end) ≡ r = cc h'' in subst (λ r. Ends seen (x ∷ xs) r) same all_good
