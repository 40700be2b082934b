-- ===== src/Controller/Saving/Examples.antt =====
-- A source that is saved and loaded. Numbers stand for floats.
use ssr_pre.Common.{ℕ, ◌≡◌, refl, Bool, true, false, none, some, if◌then◌else◌}
use ssr_pre.Common.Text.{codes, eq_text}
use ssr_pre.Source.{Source, fresh, read_model}
use ssr_pre.Publisher.{Settings}
use ssr_pre.CommandParser.{Readers}
use ssr_pre.CommandParser.Examples.{readers}
use ssr_pre.SceneFile.{Node, read_source}
use ssr_pre.Controller.Sample.{numbers, printer}
use ssr_pre.Controller.Saving.{add_source}
use ssr_pre.Controller.Saving.Leaves.{ReadsBack}
use ssr_pre.Controller.Saving.Reloading.{IsReloaded, read_source-add_source}

-- Readers for what the printer prints.
abbrev exact_readers : Readers ℕ
exact_readers = record readers {
  read_bool = λ w.
      if eq_text w (codes "true")
      then some true
      else if eq_text w (codes "false")
      then some false
      else none;
  read_model = read_model;
}

exact_readers-ReadsBack : ReadsBack numbers printer exact_readers
unfolding eq_text
exact_readers-ReadsBack = record {
  bool = bool_back;
  no_bool = refl;
  no_channel = refl;
  models = λ m. refl;
}
  where
    bool_back : (b : Bool) → exact_readers.read_bool (printer.show_bool b) ≡ some b
    bool_back true = refl
    bool_back false = refl

-- A source of the second channel of a file.
abbrev recorded : Source ℕ
recorded = record (fresh numbers 0) {
  audio_file_name = codes "audio/a.wav";
  audio_file_channel = 2;
  properties_file = codes "b.txt";
}

read_source-add_source_example :
    (node : Node) × (s : Settings ℕ) × (add_source numbers printer
        (some (codes "/home"))
        (codes "s/a.asd")
        (1, recorded)
      ≡ some node)
    × (read_source numbers exact_readers (some (codes "/home")) (codes "p") (codes "s/a.asd") node
        ≡ some (some s))
    × IsReloaded numbers printer exact_readers
        (codes "/home")
        (codes "p")
        (codes "s/a.asd")
        recorded
        s
unfolding eq_text
read_source-add_source_example =
    read_source-add_source numbers printer exact_readers (codes "/home") (codes "p")
      (codes "s/a.asd") 1 recorded refl exact_readers-ReadsBack
      (record { x = refl; y = refl; azimuth = refl; volume = refl; channel = refl; gain = refl })
