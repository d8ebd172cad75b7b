-- ===== src/Events/Reactions.antt =====
-- What processEvent of internal/compute/events/listener.go does for the files of a container.
use hpktainer.Base.{
  ◌⊎◌, Option-cases, ℕ, ◌≡◌, ◌∙◌, refl, ap, sym, true, false, Option, none, some, [], ◌∷◌, ◌++◌,
  Bytes, codes, if◌then◌else◌, ◌||◌, beq, is_abs, ext, ext_from, arith, inl, inr, All-append,
}
use hpktainer.Endpoint.{extension_exit_code, sys_error_file_path, pod_path}
use hpktainer.Pod.{Pod, failed}
use hpktainer.Conditions.{pod_error}
use hpktainer.Events.{
  Match, parse_control_file_path, Event, PodControl, Reaction, reconcile, ignore, fail_pod,
  reaction, is_final, reconcile_event, fail_loaded, react, process_match, process_event,
}
use hpktainer.Events.ControlFile.{PlainName, PlainFile, parse_control_file_path-path}

-- The extension of a file that ends in the extension of exit codes, whatever dots stand before.
ext_from-exit_code :
    (s found : Bytes) → ext_from (s ++ extension_exit_code) found ≡ extension_exit_code
unfolding ext_from
ext_from-exit_code [] found = refl
ext_from-exit_code (c ∷ s) found = ext_from-exit_code s _

reaction-exit_code : (name : Bytes) → reaction (name ++ extension_exit_code) ≡ reconcile
unfolding reaction ext beq
reaction-exit_code name = rw (ext_from-exit_code name []) refl

exit_code-PlainFile : (name : Bytes) → PlainFile name → PlainFile (name ++ extension_exit_code)
exit_code-PlainFile name h = All-append _ name extension_exit_code h (omega arith)

module _ (event : Event) (control : PodControl) (read_file : Bytes → Option Bytes) (hpk : Bytes)
    (now : ℕ) where
  process_match-reconcile :
      (m : Match) (pod : Pod)
      → (event.has_create || event.has_write) ≡ true
      → reaction m.file ≡ reconcile
      → control.load_from_disk m.namespace m.pod ≡ some pod
      → process_match event control read_file hpk now (some m)
        ≡ (if is_final pod.status.phase then none else some (control.update_status pod))
  unfolding process_match react reconcile_event
  process_match-reconcile m pod o r l = ground (arith, o, r, l)

  -- A created or written exit code of a container reconciles its pod, if the directory of HPK is
  -- absolute, the names of the namespace and the pod are not empty and have no blanks or slashes,
  -- the container's name has no newline or slash, and the pod can be loaded: a pod in a final phase
  -- is left alone, any other is updated and notified.
  pub process_event-exit_code :
      (namespace pod name : Bytes) (p : Pod)
      → is_abs hpk ≡ true
      → PlainName namespace
      → PlainName pod
      → PlainFile name
      → event.name
        ≡ hpk
          ++ b'/'
            ∷ (namespace
                ++ b'/' ∷ (pod ++ (codes "/controlfiles/" ++ (name ++ extension_exit_code))))
      → (event.has_create || event.has_write) ≡ true
      → control.load_from_disk namespace pod ≡ some p
      → process_event event control read_file hpk now
        ≡ (if is_final p.status.phase then none else some (control.update_status p))
  unfolding process_event
  process_event-exit_code namespace pod name p a n q f path o l =
      let file = name ++ extension_exit_code in
      let m : Match = record { namespace = namespace; pod = pod; file = file } in
      ap
        (λ (x : Bytes).
          process_match event control read_file hpk now (parse_control_file_path hpk x))
        path
      ∙ ap (λ (x : Option Match). process_match event control read_file hpk now x)
          (parse_control_file_path-path hpk namespace pod file a n q (exit_code-PlainFile name f))
      ∙ process_match-reconcile m p o (reaction-exit_code name) l

  process_match-Cause :
      (m : Match) (q : Pod)
      → process_match event control read_file hpk now (some m) ≡ some q
      → ((event.has_create || event.has_write) ≡ true)
        × (react (reaction m.file) control read_file hpk now m ≡ some q)
  unfolding process_match
  process_match-Cause m q h = (ground arith, ground arith)

  -- Why a reaction notifies.
  abbrev pub Cause : Reaction → Match → Pod → Pod → Type 0
  Cause r m p q =
      (r ≡ fail_pod) × (q.status.phase ≡ failed)
      ⊎ (is_final p.status.phase ≡ false) × (control.update_status p ≡ q)

  fail_loaded-Cause :
      (reason : Option Bytes) (m : Match) (p q : Pod)
      → fail_loaded now reason (some p) ≡ some q
      → Cause fail_pod m p q
  unfolding fail_loaded pod_error
  fail_loaded-Cause none m p q h = inl (refl, ground arith)
  fail_loaded-Cause (some reason) m p q h = inl (refl, ground arith)

  reconcile_event-Cause :
      (m : Match) (p q : Pod)
      → reconcile_event control.update_status (some p) ≡ some q
      → Cause reconcile m p q
  unfolding reconcile_event
  reconcile_event-Cause m p q h = inr (ground arith, ground arith)

  react-Cause :
      (r : Reaction) (m : Match) (q : Pod)
      → react r control read_file hpk now m ≡ some q
      → (p : Pod) × (control.load_from_disk m.namespace m.pod ≡ some p) × Cause r m p q
  unfolding react
  react-Cause fail_pod m q h = elim (Option-cases (control.load_from_disk m.namespace m.pod)) [
    | inl l ↦ absurd (ground (arith, l))
    | inr (p, l) ↦ (
      p,
      l,
      fail_loaded-Cause (read_file (sys_error_file_path (pod_path hpk m.namespace m.pod))) m p q (
          sym (
            ap
              (λ (x : Option Pod).
                fail_loaded now (read_file (sys_error_file_path (pod_path hpk m.namespace m.pod)))
                  x)
              l)
          ∙ h),
    )
  ]
  react-Cause reconcile m q h = elim (Option-cases (control.load_from_disk m.namespace m.pod)) [
    | inl l ↦ absurd (ground (arith, l))
    | inr (p, l) ↦ (
      p,
      l,
      reconcile_event-Cause m p q
          (sym (ap (λ (x : Option Pod). reconcile_event control.update_status x) l) ∙ h),
    )
  ]
  react-Cause ignore m q h = absurd (ground arith)

  -- A pod is notified only if the path is that of a control file, the file was created or written, and
  -- the pod could be loaded; it is then failed for a system error, or it is the update of a pod that
  -- was not in a final phase.
  pub process_event-Cause :
      (q : Pod)
      → process_event event control read_file hpk now ≡ some q
      → (m : Match) × (p : Pod) × (parse_control_file_path hpk event.name ≡ some m)
        × ((event.has_create || event.has_write) ≡ true)
        × (control.load_from_disk m.namespace m.pod ≡ some p)
        × Cause (reaction m.file) m p q
  unfolding process_event process_match
  process_event-Cause q h = elim (Option-cases (parse_control_file_path hpk event.name)) [
    | inl e ↦ absurd (ground arith)
    | inr (m, e) ↦
        let (written, r) = process_match-Cause m q (
          ap (λ (x : Option Match). process_match event control read_file hpk now x) (sym e) ∙ h) in
        let (p, l, cause) = react-Cause (reaction m.file) m q r in (m, p, e, written, l, cause)
  ]
