-- ===== src/Generator/Output/All.antt =====
-- The files of all units of a run.
use systemd_cron.Base.{
  ◌≡◌, refl, ◌∙◌, sym, inl, inr, List, [], ◌∷◌, ◌++◌, none, some, true, false, ℕ, suc, Bytes, codes,
  equal, arith,
}
use systemd_cron.Generator.Crontab.Distinct.{distinct, names}
use systemd_cron.Generator.Host.{Host}
use systemd_cron.Generator.Job.Exec.{generate_scriptlet}
use systemd_cron.Generator.Job.Schedule.{member}
use systemd_cron.Generator.Job.Unit.{generate_timer, generate_service}
use systemd_cron.Generator.Job.{Job}
use systemd_cron.Generator.Output.Frame.{Apart, output-Keeps}
use systemd_cron.Generator.Output.Names.{unequal, different, timer-Apart, service-Apart, link-Apart}
use systemd_cron.Generator.Output.Script.{output_done, generate_scriptlet-IsScript}
use systemd_cron.Generator.Output.{
  unit_path, link_path, output, output_all, write_units, write_service, script_text,
}
use systemd_cron.Sys.Keeps.{Keeps}
use systemd_cron.Sys.{Oracle, Disk, create_and_write, symlink, write_all}

-- Each job of the list.
abbrev pub Each : (Job → Type 0) → List Job → Type 0
Each P [] = Unit
Each P (j ∷ js) = P j × Each P js

Each-map : (P Q : Job → Type 0) (js : List Job) → ((j : Job) → P j → Q j) → Each P js → Each Q js
Each-map P Q [] f h = tt
Each-map P Q (j ∷ js) f h = (f j h.0, Each-map P Q js f h.1)

Each-both : (P Q : Job → Type 0) (js : List Job) → Each P js → Each Q js → Each (λ j. P j × Q j) js
Each-both P Q [] h k = tt
Each-both P Q (j ∷ js) h k = ((h.0, k.0), Each-both P Q js h.1 k.1)

flipped : (a b : Bytes) → equal a b ≡ false → equal b a ≡ false
flipped a b h = unequal b a λ e. different a b h (sym e)

-- The timer, the service and the link of a job are there, whole.
pub record IsWritten (host : Host) (d : Disk) (j : Job) : Type 0 where
  pub timer :
      d.files (unit_path host j (codes ".timer"))
      ≡ some (generate_timer host (generate_scriptlet host j).1)
  pub service :
      d.files (unit_path host j (codes ".service"))
      ≡ some (generate_service host (generate_scriptlet host j).1)
  pub link : d.files (link_path host j) ≡ some (unit_path host j (codes ".timer"))

abbrev pub IsNamed : Job → Type 0
IsNamed j = (x : Bytes) × (j.unit_name ≡ codes "cron-" ++ x)

-- No call fails.
abbrev pub IsWilling : Oracle → Type 0
IsWilling o = (n : ℕ) → o.fault n ≡ none

create_and_write_succeeds :
    (o : Oracle) → IsWilling o → (p s : Bytes) (d : Disk) → (create_and_write o p s d).0 ≡ none
unfolding create_and_write write_all
create_and_write_succeeds o w p s d = ground (arith, w d.calls, w (suc d.calls))

symlink_succeeds :
    (o : Oracle) → IsWilling o → (t p : Bytes) (d : Disk) → (symlink o t p d).0 ≡ none
unfolding symlink
symlink_succeeds o w t p d = ground (arith, w d.calls)

module _ (o : Oracle) (w : IsWilling o) (host : Host) where
  write_units_succeeds : (k : Job) (d : Disk) → (write_units o host k d).0 ≡ true
  unfolding write_units write_service
  write_units_succeeds k d =
      let t = unit_path host k (codes ".timer") in
      let d1 = (create_and_write o t (generate_timer host k) d).1 in
      let d2 = (symlink o t (link_path host k) d1).1 in
      ground (
        arith,
        create_and_write_succeeds o w t (generate_timer host k) d,
        symlink_succeeds o w t (link_path host k) d1,
        create_and_write_succeeds o w (unit_path host k (codes ".service"))
            (generate_service host k) d2,
      )

  output_succeeds : (j : Job) (d : Disk) → (output o host j d).0 ≡ true
  unfolding output
  output_succeeds j d =
      let script = generate_scriptlet-IsScript host j in
      let k = (generate_scriptlet host j).1 in
      let p = unit_path host j (codes ".sh") in
      let d1 = (create_and_write o p (script_text k) d).1 in
      elim script.path [
        | inl e ↦ ground (arith, e, write_units_succeeds k d)
        | inr e ↦
            ground (
              arith,
              e,
              create_and_write_succeeds o w p (script_text k) d,
              write_units_succeeds k d1,
            )
      ]

  output_all-Keeps :
      (q : Bytes) (js : List Job) → Each (λ j. Apart host j q) js → Keeps q (output_all o host js)
  unfolding output_all
  output_all-Keeps q [] h d = refl
  output_all-Keeps q (j ∷ js) h d =
      output_all-Keeps q js h.1 (output o host j d).1 ∙ output-Keeps o host q j h.0 d

  -- The names of the other units are not this one's.
  others :
      (x : Bytes) (js : List Job)
      → member x (names js) ≡ false
      → Each (λ k. equal k.unit_name x ≡ false) js
  unfolding member
  others x [] h = tt
  others x (k ∷ js) h = (ground arith, others x js (ground arith))

  IsWritten-output_all :
      (j : Job) (js : List Job) (d : Disk)
      → IsNamed j
      → Each (λ k. IsNamed k × (equal k.unit_name j.unit_name ≡ false)) js
      → IsWritten host d j
      → IsWritten host (output_all o host js d).1 j
  IsWritten-output_all j js d (x, named) h i = record {
    timer =
        output_all-Keeps _ js
          (Each-map _ _ js
            (λ k a. timer-Apart host j k x a.0.0 named a.0.1 (flipped k.unit_name j.unit_name a.1))
            h)
          d
        ∙ i.timer;
    service =
        output_all-Keeps _ js
          (Each-map _ _ js
            (λ k a.
              service-Apart host j k x a.0.0 named a.0.1 (flipped k.unit_name j.unit_name a.1))
            h)
          d
        ∙ i.service;
    link =
        output_all-Keeps _ js
          (Each-map _ _ js
            (λ k a. link-Apart host j k x a.0.0 named a.0.1 (flipped k.unit_name j.unit_name a.1))
            h)
          d
        ∙ i.link;
  }

  links_stay :
      (j : Job) (js : List Job) (d : Disk)
      → IsNamed j
      → Each
          (λ k.
            (IsNamed k × (equal k.unit_name j.unit_name ≡ false))
            × (d.files (link_path host k) ≡ none))
          js
      → Each (λ k. (output o host j d).1.files (link_path host k) ≡ none) js
  links_stay j js d (x, named) h =
      Each-map _ _ js
        (λ k a.
          output-Keeps o host (link_path host k) j
            (link-Apart host k j a.0.0.0 x a.0.0.1 named a.0.1) d
          ∙ a.1)
        h

  -- Where no call fails, every name begins as those of the generator do, no two are the same, and
  -- there are no links of these names, all units of a run are there in the end, each with the whole
  -- of its texts and its link.
  pub output_all-Each :
      (js : List Job) (d : Disk)
      → Each IsNamed js
      → distinct (names js) ≡ true
      → Each (λ j. d.files (link_path host j) ≡ none) js
      → Each (IsWritten host (output_all o host js d).1) js
  unfolding output_all
  output_all-Each [] d n h l = tt
  output_all-Each (j ∷ js) d n h l =
      let d1 = (output o host j d).1 in
      let apart = Each-both IsNamed _ js n.1 (others j.unit_name js (ground arith)) in
      let first = output_done o host j n.0.0 d n.0.1 l.0 (output_succeeds j d) in
      (
        IsWritten-output_all j js d1 n.0 apart
            (record { timer = first.0; service = first.1; link = first.2 }),
        output_all-Each js d1 n.1 (ground arith)
            (links_stay j js d n.0 (Each-both _ _ js apart l.1)),
      )
