-- ===== src/Generator/Output/Written.antt =====
-- What `output` leaves: a timer and a service, each whole, and nothing else but the script and the
-- link.
use systemd_cron.Base.{
  ◌≡◌, refl, ◌∙◌, [], ◌∷◌, ◌++◌, none, some, true, false, Bytes, codes, equal, arith,
}
use systemd_cron.Generator.Host.{Host}
use systemd_cron.Generator.Job.Unit.{generate_timer, generate_service}
use systemd_cron.Generator.Job.{Job}
use systemd_cron.Generator.Output.{unit_path, link_path, write_service, write_units}
use systemd_cron.Sys.Keeps.{
  create_and_write_done, Keeps-create_and_write, Keeps-symlink, symlink_done,
}
use systemd_cron.Sys.{Oracle, Disk, create_and_write, symlink}

pub equal-append : (a b c : Bytes) → equal (a ++ b) (a ++ c) ≡ equal b c
unfolding equal
equal-append [] b c = refl
equal-append (x ∷ a) b c = ground (arith, equal-append a b c)

module _ (host : Host) (j : Job) (x : Bytes) (named : j.unit_name ≡ codes "cron-" ++ x) where
  suffixes_differ :
      (s t : Bytes) → equal s t ≡ false → equal (unit_path host j s) (unit_path host j t) ≡ false
  suffixes_differ s t h =
      equal-append host.target_dir (codes "/" ++ (j.unit_name ++ s))
        (codes "/" ++ (j.unit_name ++ t))
      ∙ equal-append (codes "/") (j.unit_name ++ s) (j.unit_name ++ t)
      ∙ equal-append j.unit_name s t
      ∙ h

  not_the_link : (s : Bytes) → equal (unit_path host j s) (link_path host j) ≡ false
  unfolding equal
  not_the_link s =
      equal-append host.target_dir (codes "/" ++ (j.unit_name ++ s))
        (codes "/cron.target.wants/" ++ (j.unit_name ++ codes ".timer"))
      ∙ rw named refl

  pub link_not : (s : Bytes) → equal (link_path host j) (unit_path host j s) ≡ false
  unfolding equal
  link_not s =
      equal-append host.target_dir (codes "/cron.target.wants/" ++ (j.unit_name ++ codes ".timer"))
        (codes "/" ++ (j.unit_name ++ s))
      ∙ rw named refl

  module _ (o : Oracle) where
    timer_not_service :
        equal (unit_path host j (codes ".timer")) (unit_path host j (codes ".service")) ≡ false
    unfolding equal
    timer_not_service = suffixes_differ (codes ".timer") (codes ".service") refl

    pub write_units_done :
        (d : Disk)
        → d.files (link_path host j) ≡ none
        → (write_units o host j d).0 ≡ true
        → ((write_units o host j d).1.files (unit_path host j (codes ".timer"))
            ≡ some (generate_timer host j))
          × ((write_units o host j d).1.files (unit_path host j (codes ".service"))
              ≡ some (generate_service host j))
          × ((write_units o host j d).1.files (link_path host j)
              ≡ some (unit_path host j (codes ".timer")))
    unfolding write_units write_service
    write_units_done d f h =
        let t = unit_path host j (codes ".timer") in
        let v = unit_path host j (codes ".service") in
        let l = link_path host j in
        let d1 = (create_and_write o t (generate_timer host j) d).1 in
        let d2 = (symlink o t l d1).1 in
        ground (
          arith,
          create_and_write_done o t (generate_timer host j) d,
          Keeps-create_and_write o t l (generate_timer host j) (link_not (codes ".timer")) d,
          Keeps-symlink o l t t (not_the_link (codes ".timer")) d1,
          symlink_done o l t d1,
          Keeps-create_and_write o v t (generate_service host j) timer_not_service d2,
          Keeps-create_and_write o v l (generate_service host j) (link_not (codes ".service")) d2,
          create_and_write_done o v (generate_service host j) d2,
        )
