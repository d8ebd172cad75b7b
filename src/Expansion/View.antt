-- ===== src/Expansion/View.antt =====
-- Where the loop of Expand in pkg/expansion/expand.go stands in its input.
use hpktainer.Base.{
  ℕ, ◌+◌, ◌-◌, ◌≤◌, ◌≡◌, sym, ap, ◌∙◌, [], ◌∷◌, ◌++◌, Bytes, length, drop, slice, arith, drop-drop,
  take-add, take-append-drop, length-drop,
}
use mathlib.Core.Path.{ap₂}

-- The cursor stands before `suf`, and `pend` is the text since the checkpoint.
pub record View (input : Bytes) (checkpoint cursor : ℕ) (pend suf : Bytes) : Type 0 where
  pub rest : drop cursor input ≡ suf
  pub pending : slice checkpoint cursor input ≡ pend
  pub ordered : checkpoint ≤ cursor

pub View-length :
    {input : Bytes} {cp cur : ℕ} {pend suf : Bytes}
    → View input cp cur pend suf
    → length suf ≡ length input - cur
View-length {input} {cp} {cur} v = ap length (sym (View.rest v)) ∙ length-drop cur input

pub View-drop :
    {input : Bytes} {cp cur : ℕ} {pend suf : Bytes}
    → View input cp cur pend suf
    → drop (cur - cp) (drop cp input) ≡ suf
View-drop {input} {cp} {cur} v =
    let e : cp + (cur - cp) ≡ cur = omega arith in
    drop-drop cp (cur - cp) input ∙ ap (λ (n : ℕ). drop n input) e ∙ View.rest v

pub View-next :
    {input : Bytes} {cp cur c : ℕ} {pend suf : Bytes}
    → View input cp cur pend (c ∷ suf)
    → View input cp (cur + 1) (pend ++ c ∷ []) suf
View-next {input} {cp} {cur} {c} {pend} {suf} v = record {
  rest = sym (drop-drop cur 1 input) ∙ ap (drop 1) (View.rest v);
  pending =
      let e : cur + 1 - cp ≡ cur - cp + 1 = omega arith in
      rw (e, take-add (cur - cp) 1 (drop cp input), View-drop v, View.pending v);
  ordered = omega arith;
}

pub View-jump :
    {input : Bytes} {cp cur : ℕ} {pend suf : Bytes} (k : ℕ)
    → View input cp cur pend suf
    → View input (cur + k) (cur + k) [] (drop k suf)
View-jump {input} {cp} {cur} k v = record {
  rest = sym (drop-drop cur k input) ∙ ap (drop k) (View.rest v);
  pending = let e : cur + k - (cur + k) ≡ 0 = omega arith in rw e;
  ordered = omega arith;
}

pub View-tail :
    {input : Bytes} {cp cur : ℕ} {pend suf : Bytes}
    → View input cp cur pend suf
    → drop cp input ≡ pend ++ suf
View-tail {input} {cp} {cur} {pend} {suf} v =
    sym (take-append-drop (cur - cp) (drop cp input)) ∙ ap₂ ◌++◌ (View.pending v) (View-drop v)
