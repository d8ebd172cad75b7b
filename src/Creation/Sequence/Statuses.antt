-- ===== src/Creation/Sequence/Statuses.antt =====
-- The container statuses that CreatePod of internal/compute/podhandler/podhandler.go leaves.
use hpktainer.Base.{
  ℕ, Bool, true, false, Option, none, some, List, [], ◌∷◌, Bytes, ◌≡◌, refl, ap, ◌∙◌, sym, arith,
  map,
}
use hpktainer.Pod.{ContainerStatus}
use hpktainer.Creation.Building as Building
use hpktainer.Creation.Building.{Handler, Spec, Built, ok, err, Template, build_container}
use hpktainer.Creation.Building.Names.{build_container-name}
use hpktainer.Creation.{
  Host, Creation, Flow, goes, stops, save, fail, fail_unsaved, ◌and_then◌, check, save_pod,
  zero_status, prepend, built_first, build_containers, is_built,
}

abbrev pub names_of : List ContainerStatus → List Bytes
names_of ss = map (λ (s : ContainerStatus). s.name) ss

abbrev pub spec_names : List Spec → List Bytes
spec_names ss = map (λ (s : Spec). s.container.name) ss

prepend-is_built :
    (t : Template) (ts : Option (List Template)) → is_built (prepend t ts) ≡ is_built ts
unfolding prepend is_built
prepend-is_built t none = refl
prepend-is_built t (some ts) = refl

built_first-names :
    (name : Bytes) (ss : List Spec) (r : Built (Template × ContainerStatus))
    (later : List ContainerStatus × Option (List Template))
    → ((t : Template) (s : ContainerStatus) → r ≡ ok (t, s) → s.name ≡ name)
    → (is_built later.1 ≡ true → names_of later.0 ≡ spec_names ss)
    → is_built (built_first ss r later).1 ≡ true
    → names_of (built_first ss r later).0 ≡ name ∷ spec_names ss
unfolding built_first
built_first-names name ss (err e) later named rest b = unfold is_built in absurd (ground arith)
built_first-names name ss (ok (t, s)) (statuses, templates) named rest b =
    rw (named t s refl, rest (sym (prepend-is_built t templates) ∙ b)) refl

pub build_containers-names :
    (host : Building.Host) (h : Handler) (specs : List Spec)
    → is_built (build_containers host h specs).1 ≡ true
    → names_of (build_containers host h specs).0 ≡ spec_names specs
unfolding build_containers
build_containers-names host h [] e = refl
build_containers-names host h (s ∷ specs) e =
    built_first-names s.container.name specs (build_container host h s zero_status)
      (build_containers host h specs) (λ t st. build_container-name host h s zero_status t st)
      (build_containers-names host h specs) e

creation_of : Flow → Creation
creation_of (goes c) = c
creation_of (stops c) = c

goes_eq : (c d : Creation) → goes c ≡ goes d → c ≡ d
unfolding creation_of
goes_eq c d e = ap creation_of e

-- If the step goes on from a state with the first property, the state after it has the second.
pub record Ensures (P Q : Creation → Type 0) (k : Creation → Flow) : Type 0 where
  pub ensured : (c d : Creation) → P c → k c ≡ goes d → Q d

and_then-case :
    {Q R : Creation → Type 0} (f : Flow) (k : Creation → Flow)
    → ((c : Creation) → f ≡ goes c → Q c)
    → Ensures Q R k
    → (d : Creation) → (f and_then k) ≡ goes d
    → R d
and_then-case (goes c) k q r d e = Ensures.ensured r c d (q c refl) e
and_then-case (stops c) k q r d e = absurd (ground arith)

infixl 5 ◌then_Ensures◌
pub ◌then_Ensures◌ :
    {P Q R : Creation → Type 0} {f g : Creation → Flow}
    → Ensures P Q f
    → Ensures Q R g
    → Ensures P R (λ c. f c and_then g)
◌then_Ensures◌ {P} {Q} {R} {f} {g} p q = record {
  ensured = λ c d x. and_then-case (f c) g (λ m. Ensures.ensured p c m x) q d;
}

pub goes-Ensures :
    {P Q : Creation → Type 0} (k : Creation → Creation)
    → ((c : Creation) → P c → Q (k c))
    → Ensures P Q (λ c. goes (k c))
goes-Ensures {P} {Q} k h = record { ensured = λ c d x e. rw (← goes_eq (k c) d e) (h c x) }

pub check-Ensures :
    {P : Creation → Type 0} (h : Host) (now : ℕ) (reason : Bytes) (b : Bool)
    → Ensures P P (check h now reason b)
unfolding check fail
check-Ensures h now reason true = goes-Ensures (λ c. c) (λ c x. x)
check-Ensures h now reason false = record { ensured = λ c d x e. absurd (ground arith) }

-- A check whose success is used.
pub built-Ensures :
    {P Q : Creation → Type 0} (h : Host) (now : ℕ) (reason : Bytes) (b : Bool)
    (k : Creation → Creation)
    → (b ≡ true → (c : Creation) → P c → Q (k c))
    → Ensures P Q (λ c. check h now reason b (k c))
unfolding check fail
built-Ensures h now reason true k q = goes-Ensures k (q refl)
built-Ensures h now reason false k q = record { ensured = λ c d x e. absurd (ground arith) }

pub save_pod-Ensures :
    {P Q : Creation → Type 0} (h : Host) (now : ℕ) (b : Bool)
    → ((c : Creation) → P c → Q (save c))
    → Ensures P Q (save_pod h now b)
unfolding save_pod fail_unsaved
save_pod-Ensures h now true q = goes-Ensures save q
save_pod-Ensures h now false q = record { ensured = λ c d x e. absurd (ground arith) }
