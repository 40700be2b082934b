-- ===== src/Controller/Loading/Sample.antt =====
-- A small scene file and what loading it needs. Numbers stand for floats.
use ssr_pre.Common.{true, false, ℕ, ◌+◌, ◌-◌, ◌*◌, List, [], ◌∷◌, none, some, if◌then◌else◌}
use ssr_pre.Common.Text.{Text, codes, eq_text}
use ssr_pre.SceneFile.{Leaf, Document}
use ssr_pre.CommandParser.Examples.{readers}
use ssr_pre.Controller.Saving.{Writer}
use ssr_pre.Geometry.{Arithmetic}
use ssr_pre.Controller.Loading.{Loader}

abbrev pub arithmetic : Arithmetic ℕ
arithmetic = record {
  add = λ a b. a + b;
  subtract = λ a b. a - b;
  times = λ a b. a * b;
  divide = λ a b. a;
  negate = λ a. a;
  cos = λ a. a;
  sin = λ a. a;
  decimal = λ n k. n;
}

abbrev pub schema : Text
schema = codes "asdf.xsd"

abbrev pub point_leaves : List Leaf
point_leaves =
    record {
      name = codes "position";
      attribute = λ k.
          if eq_text k (codes "x") then 11 ∷ [] else if eq_text k (codes "y") then 12 ∷ [] else [];
      content = [];
    }
    ∷ record { name = codes "port"; attribute = λ k. []; content = codes "in" }
    ∷ []

-- A scene of one point source, with an amplitude reference distance of 9.
abbrev pub scene_document : Document
scene_document = record {
  validate = λ file. eq_text file schema;
  eval_xpath = λ path.
      if eq_text path (codes "//scene_setup/source")
      then record {
        name = codes "source";
        attribute = λ k. [];
        content = [];
        children = point_leaves;
      }
        ∷ []
      else if eq_text path (codes "//scene_setup/amplitude_reference_distance")
      then record {
        name = codes "amplitude_reference_distance";
        attribute = λ k. [];
        content = 9 ∷ [];
        children = [];
      }
        ∷ []
      else [];
}

abbrev pub written : Writer
written = record {
  to_string = λ name nodes. name;
  save_doc = λ file name nodes. true;
  playing = false;
}

abbrev pub loader : Loader ℕ
loader = record {
  conf = record { stand_ampl_ref_dist = 3; xml_schema = schema; input_port_prefix = codes "p" };
  readers = readers;
  arithmetic = arithmetic;
  cwd = some (codes "/home");
  load_file = λ file. if eq_text file (codes "a.asd") then some scene_document else none;
  writer = written;
  get_format = λ file. if eq_text file (codes "a.asd") then none else some 2;
  random = λ n. n;
}
