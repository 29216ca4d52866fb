-- ===== src/Aggregator/Lists.antt =====
-- The arguments and the futures of batches, as lists.
use tiny_chat_microservices.Prelude.{
  some-value, ℕ, suc, ◌≡◌, refl, sym, ap, subst, ◌∙◌, none, some, Bool-cases, inl, inr, List, [],
  ◌∷◌, ◌++◌, Dict, dict_get, dict_put, get-put, ◌==◌, arith,
}
use tiny_chat_microservices.Aggregator.{Future, Batch, Aggregator, length, set_results, set_errors}

abbrev pub count : List Future → ℕ
count [] = 0
count (f ∷ fs) = suc (count fs)

-- The arguments of the batches, in their order.
abbrev pub gathered : Dict Batch → List ℕ
gathered [] = []
gathered ((n, b) ∷ d) = b.args ++ gathered d

abbrev pub all_args : Aggregator → List ℕ
all_args a = gathered a.past ++ a.current.args

pub append_assoc : (xs ys zs : List ℕ) → (xs ++ ys) ++ zs ≡ xs ++ (ys ++ zs)
append_assoc [] ys zs = refl
append_assoc (x ∷ xs) ys zs = ap (λ (l : List ℕ). x ∷ l) (append_assoc xs ys zs)

pub append_nil : (xs : List ℕ) → xs ++ [] ≡ xs
append_nil [] = refl
append_nil (x ∷ xs) = ap (λ (l : List ℕ). x ∷ l) (append_nil xs)

pub gathered-new :
    (d : Dict Batch) (n : ℕ) (b : Batch)
    → dict_get d n ≡ none
    → gathered (dict_put d n b) ≡ gathered d ++ b.args
unfolding dict_get dict_put
gathered-new [] n b e = append_nil b.args
gathered-new ((k, c) ∷ d) n b e = elim (Bool-cases (k == n)) [
  | inl t ↦ absurd (ground arith)
  | inr t ↦ rw t (
      ap (λ (l : List ℕ). c.args ++ l) (gathered-new d n b (ground arith))
      ∙ sym (append_assoc c.args (gathered d) b.args))
]

pub gathered-same :
    (d : Dict Batch) (n : ℕ) (b c : Batch)
    → dict_get d n ≡ some b
    → c.args ≡ b.args
    → gathered (dict_put d n c) ≡ gathered d
unfolding dict_get dict_put
gathered-same [] n b c e f = absurd (ground arith)
gathered-same ((k, x) ∷ d) n b c e f = elim (Bool-cases (k == n)) [
  | inl t ↦ rw t (ap (λ (l : List ℕ). l ++ gathered d) (ground arith))
  | inr t ↦ rw t (ap (λ (l : List ℕ). x.args ++ l) (gathered-same d n b c (ground arith) f))
]

pub length-last : (xs : List ℕ) (x : ℕ) → length (xs ++ (x ∷ [])) ≡ suc (length xs)
length-last [] x = refl
length-last (y ∷ xs) x = ap suc (length-last xs x)

pub count-last : (fs : List Future) (f : Future) → count (fs ++ (f ∷ [])) ≡ suc (count fs)
count-last [] f = refl
count-last (g ∷ fs) f = ap suc (count-last fs f)

pub count-set_results : (fs : List Future) (xs : List ℕ) → count (set_results fs xs) ≡ count fs
unfolding set_results
count-set_results [] xs = refl
count-set_results (f ∷ fs) [] = refl
count-set_results (f ∷ fs) (x ∷ xs) = ap suc (count-set_results fs xs)

pub count-set_errors : (fs : List Future) → count (set_errors fs) ≡ count fs
unfolding set_errors
count-set_errors [] = refl
count-set_errors (f ∷ fs) = ap suc (count-set_errors fs)

pub put-cases :
    (d : Dict Batch) (k n : ℕ) (new b : Batch) (P : Batch → Type 0)
    → dict_get (dict_put d k new) n ≡ some b
    → P new
    → (dict_get d n ≡ some b → P b)
    → P b
put-cases d k n new b P h p q = elim (Bool-cases (k == n)) [
  | inl t ↦ subst P (some-value new b (sym (get-put d k n new ∙ rw t refl) ∙ h)) p
  | inr f ↦ q (sym (get-put d k n new ∙ rw f refl) ∙ h)
]
