-- ===== src/Processes/Secondary.antt =====
-- resolveSecondaryContainerPIDs of internal/compute/podhandler/podhandler.go.
use hpktainer.Base.{
  ◌≡◌, ◌≢◌, ◌⊎◌, ◌∙◌, ap, sym, true, false, Option, none, some, List, [], ◌∷◌, ◌++◌, Bytes, beq,
  beq_iff, any, ◌||◌, if◌then◌else◌, arith, All, All-append, Bool-cases, inl, inr,
}
use hpktainer.Endpoint.{id_path}
use hpktainer.Pod.{Pod}
use hpktainer.Containers.{Disk}
use hpktainer.Processes.{note, collect, pid_in_file, resolve_secondary_container_pids}

-- No text stands twice in the list.
abbrev pub Unrepeated : List Bytes → Type 0
Unrepeated [] = Unit
Unrepeated (x ∷ xs) = All (λ y. x ≢ y) xs × Unrepeated xs

Unrepeated-snoc :
    (xs : List Bytes) (y : Bytes) → All (λ x. x ≢ y) xs → Unrepeated xs → Unrepeated (xs ++ y ∷ [])
Unrepeated-snoc [] y h u = (tt, tt)
Unrepeated-snoc (x ∷ xs) y h u =
    (All-append (λ z. x ≢ z) xs (y ∷ []) u.0 (h.0, tt), Unrepeated-snoc xs y h.1 u.1)

abbrev Seen : List Bytes → Bytes → Type 0
Seen seen p = any (beq p) seen ≡ true

module _ (primary : Bytes) where
  record Collected (secondary seen : List Bytes) : Type 0 where
    unrepeated : Unrepeated secondary
    all_seen : All (Seen seen) secondary
    others : All (λ p. p ≢ primary) secondary
    primary_seen : (primary ≡ []) ⊎ Seen seen primary

  Seen-ne : (seen : List Bytes) (p q : Bytes) → Seen seen p → any (beq q) seen ≡ false → p ≢ q
  Seen-ne seen p q h n e =
      let h' : any (beq q) seen ≡ true = sym (ap (λ (x : Bytes). any (beq x) seen) e) ∙ h in
      ground arith

  All-ne :
      (seen ps : List Bytes) (q : Bytes)
      → All (Seen seen) ps
      → any (beq q) seen ≡ false
      → All (λ p. p ≢ q) ps
  All-ne seen [] q h n = tt
  All-ne seen (p ∷ ps) q h n = (Seen-ne seen p q h.0 n, All-ne seen ps q h.1 n)

  more-Seen : (seen ps : List Bytes) (q : Bytes) → All (Seen seen) ps → All (Seen (q ∷ seen)) ps
  more-Seen seen [] q h = tt
  more-Seen seen (p ∷ ps) q h = (ground (arith, h.0), more-Seen seen ps q h.1)

  differs :
      (pid : Bytes) (seen : List Bytes)
      → any (beq pid) seen ≡ false
      → beq pid [] ≡ false
      → (primary ≡ []) ⊎ Seen seen primary
      → pid ≢ primary
  differs pid seen new full (inl z) e = ground (arith, e ∙ z, beq_iff pid [])
  differs pid seen new full (inr z) e = Seen-ne seen primary pid z new (sym e)

  primary_is_Seen : (primary ≡ []) ⊎ Seen (if beq primary [] then [] else primary ∷ []) primary
  primary_is_Seen = elim (Bool-cases (beq primary [])) [
    | inl e ↦ inl (ground (arith, e, beq_iff primary []))
    | inr e ↦ inr (rw e (ground (arith, beq_iff primary primary)))
  ]

  note-Collected :
      (pid : Option Bytes) (secondary seen : List Bytes)
      → Collected secondary seen
      → Collected (note pid (secondary, seen)).0 (note pid (secondary, seen)).1
  unfolding note
  note-Collected none secondary seen h = h
  note-Collected (some pid) secondary seen h =
      elim (Bool-cases (any (beq pid) seen || beq pid [])) [
        | inl e ↦ rw e h
        | inr e ↦
            let new : any (beq pid) seen ≡ false = ground arith in
            let other : pid ≢ primary = differs pid seen new (ground (arith, e)) h.primary_seen in
            rw e (record {
              unrepeated =
                  Unrepeated-snoc secondary pid (All-ne seen secondary pid h.all_seen new)
                    h.unrepeated;
              all_seen =
                  All-append (Seen (pid ∷ seen)) secondary (pid ∷ [])
                    (more-Seen seen secondary pid h.all_seen) (ground (arith, beq_iff pid pid), tt);
              others = All-append (λ p. p ≢ primary) secondary (pid ∷ []) h.others (other, tt);
              primary_seen = elim (h.primary_seen) [
                | inl z ↦ inl z
                | inr z ↦ inr (ground (arith, z))
              ];
            })
      ]

  collect-Collected :
      (disk : Disk) (pod_dir : Bytes) (names secondary seen : List Bytes)
      → Collected secondary seen
      → let r = collect disk pod_dir names (secondary, seen) in Collected r.0 r.1
  unfolding collect
  collect-Collected disk pod_dir [] secondary seen h = h
  collect-Collected disk pod_dir (name ∷ names) secondary seen h =
      let pid = pid_in_file disk (id_path pod_dir name) in
      collect-Collected disk pod_dir names _ _ (note-Collected pid secondary seen h)

  -- The pids that are collected beside the primary one are all different, and none is the primary one.
  pub resolve_secondary-Unrepeated :
      (disk : Disk) (pod : Pod) (pod_dir : Bytes)
      → let secondary = resolve_secondary_container_pids disk pod pod_dir primary in
        Unrepeated secondary × All (λ p. p ≢ primary) secondary
  unfolding resolve_secondary_container_pids
  resolve_secondary-Unrepeated disk pod pod_dir =
      let seen = if beq primary [] then [] else primary ∷ [] in
      let start : Collected [] seen = record {
        unrepeated = tt;
        all_seen = tt;
        others = tt;
        primary_seen = primary_is_Seen;
      } in
      let first = collect-Collected disk pod_dir pod.containers [] seen start in
      let second = collect-Collected disk pod_dir pod.init_containers _ _ first in
      (second.unrepeated, second.others)
