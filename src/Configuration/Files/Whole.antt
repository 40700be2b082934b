-- ===== src/Configuration/Files/Whole.antt =====
-- load_config_file() on whole files: what a file of printed entries does, and what a key without a
-- value, or with an empty one, does behind them.
use mathlib.Core.Path.{fun_ext}
use ssr_pre.Common.{
  List, [], ◌∷◌, ◌++◌, some, ◌≡◌, ◌<◌, ◌+◌, refl, ◌∙◌, sym, length, arith, append_assoc, append-nil,
  length-append,
}
use ssr_pre.Common.Text.{Text}
use ssr_pre.Configuration.{Startup, Platform}
use ssr_pre.Configuration.Files.{
  failure, System, newline, room, load_lines, load_config_file, fgets_from, and_then,
}
use ssr_pre.Configuration.Files.Lines.{
  Avoids-append, is_break, blank, IsKey, IsKey-Avoids_break, is_comment_or_empty-key,
  parse-no_value, parse-empty,
}
use ssr_pre.Configuration.Files.Loading.{
  Entry, setting, print_file, AllPrintable, last_value, lines, lines-append, assign_all,
  assign_all-append, accept_line, reject_line, load_lines-print_file, and_then_done,
}

module _ {P F : Type 0} (pf : Platform P F) (sys : System) (filename : Text) (es : List Entry)
    (s : Startup P F) (printable : AllPrintable es) where
  load_file :
      (rest : Text)
      → sys.fopen filename ≡ some (print_file es ++ rest)
      → load_config_file pf sys filename s
        ≡ and_then
            (assign_all pf sys filename es s)
            (load_lines pf sys filename (lines rest) (last_value sys.uninitialised es))
  unfolding load_config_file lines
  load_file rest opened =
      rw (opened, load_config_file)
        (load_lines-print_file pf sys filename es rest sys.uninitialised s printable)

  -- A configuration file of comments and of lines KEY = "VALUE" does what its settings do one
  -- after another, up to the first unknown key or failed assertion, if it can be opened, no line
  -- is longer than 4095 characters with its newline, a key has no blank and no equals sign and
  -- does not begin with a number sign, and a value has no quote, no line end and no zero byte.
  pub load_config_file-print_file :
      sys.fopen filename ≡ some (print_file es)
      → load_config_file pf sys filename s ≡ assign_all pf sys filename es s
  unfolding load_lines lines fgets_from
  load_config_file-print_file opened =
      load_file [] (rw append-nil opened)
      ∙ and_then_done pf sys filename (assign_all pf sys filename es s)

  module _ (k : Text) (key : IsKey k) where
    -- A last line with a key and an equals sign.
    empty_line :
        length k + 3 < room
        → lines (k ++ blank ∷ b'=' ∷ newline ∷ []) ≡ (k ++ blank ∷ b'=' ∷ newline ∷ []) ∷ []
    unfolding lines fgets_from
    empty_line fits = rw (sym (append_assoc k (blank ∷ b'=' ∷ []) (newline ∷ []))) (
        lines-append (k ++ blank ∷ b'=' ∷ []) []
          (Avoids-append is_break k (blank ∷ b'=' ∷ []) (IsKey-Avoids_break k key)
            (refl, (refl, tt)))
          (omega (arith, length-append k (blank ∷ b'=' ∷ []))))

    load_empty :
        (old : Text) (t : Startup P F)
        → length k + 3 < room
        → load_lines pf sys filename (lines (k ++ blank ∷ b'=' ∷ newline ∷ [])) old t
          ≡ assign_all pf sys filename (setting k old ∷ []) t
    unfolding load_lines assign_all
    load_empty old t fits = rw (empty_line fits) (
        accept_line pf sys filename (k ++ blank ∷ b'=' ∷ newline ∷ []) old [] t
          (is_comment_or_empty-key k _ key) (parse-empty k old key) refl)

    -- A last line with a key and an equals sign, but without a value, behind such entries sets
    -- its key to the value of the setting before it, or to what was in uninitialised memory if
    -- there is none.
    pub load_config_file-empty :
        length k + 3 < room
        → sys.fopen filename ≡ some (print_file es ++ (k ++ blank ∷ b'=' ∷ newline ∷ []))
        → load_config_file pf sys filename s
          ≡ assign_all pf sys filename (es ++ setting k (last_value sys.uninitialised es) ∷ []) s
    load_config_file-empty fits opened =
        load_file (k ++ blank ∷ b'=' ∷ newline ∷ []) opened
        ∙ rw (fun_ext (λ t. load_empty (last_value sys.uninitialised es) t fits))
            (sym (assign_all-append pf sys filename es _ s))

    -- At a line with only a key, behind such entries, a configuration file fails, whatever
    -- follows; what the entries have set stays set.
    pub load_config_file-no_value :
        (rest : Text)
        → length k + 1 < room
        → sys.fopen filename ≡ some (print_file es ++ (k ++ newline ∷ rest))
        → load_config_file pf sys filename s ≡ and_then (assign_all pf sys filename es s) failure
    load_config_file-no_value rest fits opened =
        load_file (k ++ newline ∷ rest) opened
        ∙ rw (lines-append k rest (IsKey-Avoids_break k key) (omega arith))
            (rw (fun_ext (λ t. stops t)))
      where
        stops :
            (t : Startup P F)
            → load_lines pf sys filename
                ((k ++ newline ∷ []) ∷ lines rest)
                (last_value sys.uninitialised es)
                t
              ≡ failure t
        stops t =
            reject_line pf sys filename (k ++ newline ∷ []) (last_value sys.uninitialised es)
              (lines rest) t (is_comment_or_empty-key k (newline ∷ []) key)
              (rw (parse-no_value k (last_value sys.uninitialised es) key))
