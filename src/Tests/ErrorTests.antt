-- ===== src/Tests/ErrorTests.antt =====
-- The shared error of protocol/src/io/arc_err.rs, over an error that is a text and the text of its
-- cause.
use minimal_vm_tool.Prelude.{refl, Option, some, none, List, [], ◌∷◌, String}
use minimal_vm_tool.Io.ArcErr.{
  Anyhow, IsAnyhow, Way, owned, borrowed, borrowed_mut, Alike, through, through-Alike,
}

record Text : Type 0 where
  text : String
  cause : Option String

abbrev reported : String → Option String → String
reported text (some cause) = cause
reported text none = text

abbrev anyhow : Anyhow String
anyhow = record {
  Error = Text;
  shown = record {
    display = λ e. e.text;
    debug = λ e. reported e.text e.cause;
    source = λ e. e.cause;
  };
  new = λ i e. record { text = i.display e; cause = i.source e };
}

abbrev is_anyhow : IsAnyhow anyhow
is_anyhow = record {
  report = reported;
  display-new = λ i e. refl;
  source-new = λ i e. refl;
  debug-report = λ e. refl;
}

abbrev broken_pipe : Text
broken_pipe = record { text = "Failed to flush"; cause = some "Broken pipe" }

abbrev ways : List Way
ways = borrowed ∷ borrowed_mut ∷ owned ∷ []

through-Alike_example :
    Alike anyhow.shown (through anyhow ways broken_pipe) anyhow.shown broken_pipe
through-Alike_example = through-Alike anyhow is_anyhow ways broken_pipe
