-- ===== src/Io/ArcErr.antt =====
-- `ArcErr` of protocol/src/io/arc_err.rs, an error that the clones of a sender share. An
-- `Arc` to an error that never changes is the error. `anyhow::Error` is a parameter.
use minimal_vm_tool.Prelude.{◌≡◌, refl, ap₂, ◌∙◌, sym, Option, List, [], ◌∷◌, String}

-- `std::error::Error` on a type `E`: what it shows, over `&dyn Error`, `D`.
pub record StdError (D E : Type 0) : Type 0 where
  pub display : E → String
  pub debug : E → String
  pub source : E → Option D

-- `anyhow::Error`, and its `new`.
pub record Anyhow (D : Type 0) : Type 1 where
  pub Error : Type 0
  pub shown : StdError D Error
  pub new : {E : Type 0} → StdError D E → E → Error

-- What anyhow documents: an error shows as the one that it was made of, and its `Debug` is a report of
-- its text and of its sources, where no backtrace is captured.
pub record IsAnyhow {D : Type 0} (A : Anyhow D) : Type 1 where
  pub report : String → Option D → String
  pub display-new :
      {E : Type 0} (i : StdError D E) (e : E) → A.shown.display (A.new i e) ≡ i.display e
  pub source-new : {E : Type 0} (i : StdError D E) (e : E) → A.shown.source (A.new i e) ≡ i.source e
  pub debug-report : (e : A.Error) → A.shown.debug e ≡ report (A.shown.display e) (A.shown.source e)

-- The three ways out: `From<ArcErr>`, `From<&ArcErr>` and `From<&mut ArcErr>` for `anyhow::Error`.
pub data Way : Type 0 where
  owned borrowed borrowed_mut : Way

module _ {D : Type 0} (A : Anyhow D) where
  pub record ArcErr : Type 0 where
    pub held : A.Error

  pub record ArcErrForAnyhow : Type 0 where
    pub shared : ArcErr

  -- `Display` and `Debug`, and with `source` what `ArcErrForAnyhow` shows.
  unfoldable pub display : ArcErr → String
  display t = A.shown.display t.held

  unfoldable pub debug : ArcErr → String
  debug t = A.shown.debug t.held

  unfoldable pub for_anyhow : StdError D ArcErrForAnyhow
  unfolding display debug
  for_anyhow = record {
    display = λ t. display t.shared;
    debug = λ t. debug t.shared;
    source = λ t. A.shown.source t.shared.held;
  }

  unfoldable pub from_anyhow : A.Error → ArcErr
  from_anyhow e = record { held = e }

  unfoldable pub new : {E : Type 0} → StdError D E → E → ArcErr
  unfolding from_anyhow
  new i e = from_anyhow (A.new i e)

  -- `From<E>`.
  unfoldable pub from_std : {E : Type 0} → StdError D E → E → ArcErr
  unfolding new
  from_std i e = new i e

  unfoldable pub into_anyhow : ArcErr → A.Error
  into_anyhow t = A.new for_anyhow (record { shared = t })

  -- The derived `clone`.
  unfoldable pub clone : ArcErr → ArcErr
  clone t = record { held = t.held }

  unfoldable pub clone_anyhow : ArcErr → A.Error
  unfolding clone
  clone_anyhow t = A.new for_anyhow (record { shared = clone t })

  unfoldable pub out : Way → ArcErr → A.Error
  out owned t = into_anyhow t
  out borrowed t = clone_anyhow t
  out borrowed_mut t = clone_anyhow t

  -- Into an `ArcErr` and out of it, any number of times.
  unfoldable pub through : List Way → A.Error → A.Error
  through [] e = e
  through (way ∷ ways) e = through ways (out way (from_anyhow e))

-- Errors that show alike.
abbrev pub Alike : {D E E' : Type 0} → StdError D E → E → StdError D E' → E' → Type 0
Alike i e j f = (i.display e ≡ j.display f) × (i.debug e ≡ j.debug f) × (i.source e ≡ j.source f)

module _ {D : Type 0} (A : Anyhow D) (L : IsAnyhow A) where
  made-Alike :
      (e : A.Error)
      → Alike A.shown (A.new (for_anyhow A) (record { shared = record { held = e } })) A.shown e
  unfolding for_anyhow display debug
  made-Alike e =
      let t : ArcErrForAnyhow A = record { shared = record { held = e } } in
      let d = L.display-new (for_anyhow A) t in
      let s = L.source-new (for_anyhow A) t in
      (d, L.debug-report (A.new (for_anyhow A) t) ∙ ap₂ L.report d s ∙ sym (L.debug-report e), s)

  one_way : (way : Way) (e : A.Error) → Alike A.shown (out A way (from_anyhow A e)) A.shown e
  unfolding out into_anyhow clone_anyhow clone from_anyhow
  one_way owned e = made-Alike e
  one_way borrowed e = made-Alike e
  one_way borrowed_mut e = made-Alike e

  -- Where an anyhow error shows the text and the source of the error that it was made of, and its
  -- Debug is a report of these: an error that has been put into an ArcErr and taken out of it, by
  -- value or by reference and any number of times, shows the same text, the same report and the
  -- same source.
  pub through-Alike : (ways : List Way) (e : A.Error) → Alike A.shown (through A ways e) A.shown e
  unfolding through
  through-Alike [] e = (refl, refl, refl)
  through-Alike (way ∷ ways) e =
      let rest = through-Alike ways (out A way (from_anyhow A e)) in
      let first = one_way way e in (rest.0 ∙ first.0, rest.1 ∙ first.1, rest.2 ∙ first.2)
