-- ===== src/Tests/Search.antt =====
-- A search for ports on a system that lists two of them, and the theorems about it.
use mathlib.Core.Path.{subst}
use libieee.Common.{List, Option, [], false, none, pos, refl, some, true, ℤ, ◌++◌, ◌∷◌, ◌≡◌}
use libieee.Conf.Reader.{Config, read_config_file}
use libieee.Detect.{parport}
use libieee.Port.Machine.{Text}
use libieee.Ports.Added.{WellFormed}
use libieee.Ports.Find.{Search, ieee1284_find_ports, ieee1284_free_ports}
use libieee.Ports.Find.Freed.{find_ports-Freed, none_live}
use libieee.Ports.Paths.{default_name}
use libieee.Ports.Proc.{Lister, Unwritten}
use libieee.Ports.Proc.Short.{ShortNames, all_short}
use libieee.Tests.Detect.{before_all, file_system}
use libieee.Tests.Sorting.{insertion_sort, insertion_sort-Sorts, strcmp}

abbrev parport0 : Text
parport0 = parport ++ (b'0' ∷ [])

abbrev pub some_lister : Lister (List ℤ)
some_lister = record {
  system = file_system;
  directory = λ name w. (some (parport0 ∷ default_name ∷ (parport ++ (b'1' ∷ b'0' ∷ [])) ∷ []), w);
  strtoul = λ text. (0x378, []);
  strtol = λ text. pos 7;
}

abbrev pub no_text : Unwritten
no_text = record { device = []; udevice = []; contents = [] }

abbrev pub unread : Config
unread = record { disallow_ppdev = false; config_read = false }

pub no_file :
    read_config_file none unread ≡ some (record { disallow_ppdev = false; config_read = true })
unfolding read_config_file
no_file = refl

pub some_lister-ShortNames : ShortNames some_lister
some_lister-ShortNames path w names listed =
    subst (λ (o : Option (List Text)). each_short o) listed refl
  where
    each_short : Option (List Text) → Type 0
    each_short none = Unit {0}
    each_short (some names) = all_short names ≡ true

find_ports-Freed_example :
    (f : Search (List ℤ)) × (ieee1284_find_ports some_lister no_text insertion_sort none unread
        before_all
      ≡ some f)
    × (f.result ≡ pos 0)
    × WellFormed strcmp f.list
    × (none_live (ieee1284_free_ports f.list) ≡ true)
find_ports-Freed_example =
    find_ports-Freed some_lister no_text insertion_sort-Sorts some_lister-ShortNames none unread
      (record { disallow_ppdev = false; config_read = true }) before_all no_file
