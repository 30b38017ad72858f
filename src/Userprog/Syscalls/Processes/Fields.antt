-- ===== src/Userprog/Syscalls/Processes/Fields.antt =====
-- What the methods of the process list of userprog/exception.cc leave of its elements.
use cmps.Prelude.{
  ℕ, ◌<◌, ◌≡◌, refl, ap, subst, ◌∙◌, Bool, true, false, ◌&&◌, List, [], ◌∷◌, Option, none, some,
  if◌then◌else◌, arith, length,
}
use cmps.Userprog.ProcessList.{
  Heap, ProcessList, Result, ok, fault, out_of_fuel, ◌>>=◌, deref, find, append, remove, is_empty,
  is_at, set_next, set_previous,
}
use cmps.Userprog.ProcessList.Links.{IsList}
use cmps.Userprog.ProcessList.Lookup.{element_of, expected, find-expected}

-- Two heaps differ in the pointers of the elements only.
pub record Same (h h' : Heap) (q : ℕ) : Type 0 where
  pub pid : (h' q).pid ≡ (h q).pid
  pub valid : (h' q).valid ≡ (h q).valid
  pub parent_pid : (h' q).parent_pid ≡ (h q).parent_pid
  pub semaphore : (h' q).semaphore ≡ (h q).semaphore

Same-refl : (h : Heap) (q : ℕ) → Same h h q
Same-refl h q = record { pid = refl; valid = refl; parent_pid = refl; semaphore = refl }

Same-trans : (a b c : Heap) (q : ℕ) → Same a b q → Same b c q → Same a c q
Same-trans a b c q x y = record {
  pid = y.pid ∙ x.pid;
  valid = y.valid ∙ x.valid;
  parent_pid = y.parent_pid ∙ x.parent_pid;
  semaphore = y.semaphore ∙ x.semaphore;
}

Same-next : (h : Heap) (p : ℕ) (n : Option ℕ) (q : ℕ) → Same h (set_next h p n) q
Same-next h p n q = record {
  pid = ground arith;
  valid = ground arith;
  parent_pid = ground arith;
  semaphore = ground arith;
}

Same-previous : (h : Heap) (p : ℕ) (n : Option ℕ) (q : ℕ) → Same h (set_previous h p n) q
Same-previous h p n q = record {
  pid = ground arith;
  valid = ground arith;
  parent_pid = ground arith;
  semaphore = ground arith;
}

-- The heap of a result.
abbrev After : Heap → ℕ → Result (Heap × ProcessList) → Type 0
After h q (ok r) = Same h r.0 q
After h q fault = Unit {0}
After h q out_of_fuel = Unit {0}

After-if :
    (h : Heap) (q : ℕ) (b : Bool) (x y : Result (Heap × ProcessList))
    → After h q x
    → After h q y
    → After h q (if b then x else y)
After-if h q true x y a a' = a
After-if h q false x y a a' = a'

After-deref :
    (h : Heap) (q : ℕ) (o : Option ℕ) (f : ℕ → Result (Heap × ProcessList))
    → ((n : ℕ) → After h q (f n))
    → After h q (deref o >>= f)
After-deref h q none f a = tt
After-deref h q (some n) f a = a n

remove-After : (h : Heap) (l : ProcessList) (c q : ℕ) → After h q (remove h l c)
unfolding remove
remove-After h l c q = After-if h q (is_empty l) _ _ (Same-refl h q) (
    After-if h q (is_at c l.head && is_at c l.tail) _ _ (Same-refl h q) (
      After-if h q (is_at c l.head) _ _
        (After-deref h q (h c).next _ (λ n. Same-previous h n none q))
        (After-if h q (is_at c l.tail) _ _
          (After-deref h q (h c).previous _ (λ p. Same-next h p none q))
          (After-deref h q (h c).previous _ (λ p.
            After-deref h q (set_next h p (h c).next c).next _ (λ n.
              Same-trans h (set_next h p (h c).next)
                (set_previous (set_next h p (h c).next) n (set_next h p (h c).next c).previous) q
                (Same-next h p (h c).next q)
                (Same-previous (set_next h p (h c).next) n (set_next h p (h c).next c).previous
                  q)))))))

pub remove-Same :
    (h h' : Heap) (l l' : ProcessList) (c q : ℕ) → remove h l c ≡ ok (h', l') → Same h h' q
remove-Same h h' l l' c q e = subst (After h q) e (remove-After h l c q)

append-After : (h : Heap) (l : ProcessList) (c q : ℕ) → After h q (append h l c)
unfolding append
append-After h l c q = After-if h q (is_empty l) _ _ (Same-refl h q) (
    After-deref h q l.tail _ (λ old.
      Same-trans h (set_next h old (some c)) (set_previous (set_next h old (some c)) c (some old)) q
        (Same-next h old (some c) q) (Same-previous (set_next h old (some c)) c (some old) q)))

pub append-Same :
    (h h' : Heap) (l l' : ProcessList) (c q : ℕ) → append h l c ≡ ok (h', l') → Same h h' q
append-Same h h' l l' c q e = subst (After h q) e (append-After h l c q)

-- A search for a PID whose result is followed.
pub find-deref :
    (h : Heap) (l : ProcessList) (xs : List ℕ) (pid fuel : ℕ)
    → IsList h l xs
    → length xs < fuel
    → (find fuel h l pid >>= λ r. deref r) ≡ deref (element_of h pid xs)
find-deref h l xs pid fuel v enough =
    ap (λ (z : Result (Option ℕ)). z >>= λ r. deref r) (find-expected h l xs pid fuel v enough)
    ∙ followed xs
  where
    followed : (ys : List ℕ) → (expected h pid ys >>= λ r. deref r) ≡ deref (element_of h pid ys)
    followed [] = refl
    followed (x ∷ []) = ground arith
    followed (x ∷ y ∷ r) = refl

pub find-element :
    (h : Heap) (l : ProcessList) (xs : List ℕ) (pid fuel e : ℕ)
    → IsList h l xs
    → length xs < fuel
    → element_of h pid xs ≡ some e
    → find fuel h l pid ≡ ok (some e)
find-element h l xs pid fuel e v enough found =
    find-expected h l xs pid fuel v enough ∙ has xs found
  where
    has : (ys : List ℕ) → element_of h pid ys ≡ some e → expected h pid ys ≡ ok (some e)
    has [] f = absurd (ground (arith, f))
    has (x ∷ []) f = ground (arith, f)
    has (x ∷ y ∷ r) f = ap (λ z. ok z) f

pub element_of-same :
    (h h' : Heap) (pid : ℕ) (xs : List ℕ)
    → ((q : ℕ) → Same h h' q)
    → element_of h' pid xs ≡ element_of h pid xs
element_of-same h h' pid [] same = refl
element_of-same h h' pid (x ∷ xs) same = rw ((same x).pid, element_of-same h h' pid xs same)
