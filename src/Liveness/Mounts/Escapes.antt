-- ===== src/Liveness/Mounts/Escapes.antt =====
-- The escapes of `/proc/mounts`: `unescape_mount_point` undoes what the kernel does to a path.
use minimal_vm_tool.Prelude.{
  ℕ, ◌≡◌, refl, ap, ◌∙◌, false, [], ◌∷◌, ◌++◌, ◌==◌, if◌then◌else◌, Bool-cases, inl, inr, arith,
}
use minimal_vm_tool.Liveness.Text.{Text}
use minimal_vm_tool.Liveness.Mounts.{unescape_mount_point}

-- The kernel's `mangle_path(path, " \t\n\\")`: a space, a tab, a newline and a backslash are written
-- in octal.
abbrev pub escape_char : ℕ → Text
escape_char c =
    if c == 9
    then b'\\' ∷ b'0' ∷ b'1' ∷ b'1' ∷ []
    else if c == 10
    then b'\\' ∷ b'0' ∷ b'1' ∷ b'2' ∷ []
    else if c == 32
    then b'\\' ∷ b'0' ∷ b'4' ∷ b'0' ∷ []
    else if c == 92
    then b'\\' ∷ b'1' ∷ b'3' ∷ b'4' ∷ []
    else c ∷ []

abbrev pub escape : Text → Text
escape [] = []
escape (c ∷ cs) = escape_char c ++ escape cs

plain_char :
    (c : ℕ) (text : Text)
    → (c == 92) ≡ false
    → unescape_mount_point (c ∷ text) ≡ c ∷ unescape_mount_point text
unfolding unescape_mount_point
plain_char c [] h = rw h refl
plain_char c (x ∷ []) h = rw h refl
plain_char c (x ∷ y ∷ []) h = rw h refl
plain_char c (x ∷ y ∷ z ∷ more) h = rw h refl

tab :
    (text : Text)
    → unescape_mount_point (b'\\' ∷ b'0' ∷ b'1' ∷ b'1' ∷ text) ≡ 9 ∷ unescape_mount_point text
unfolding unescape_mount_point
tab text = refl

line_feed :
    (text : Text)
    → unescape_mount_point (b'\\' ∷ b'0' ∷ b'1' ∷ b'2' ∷ text) ≡ 10 ∷ unescape_mount_point text
unfolding unescape_mount_point
line_feed text = refl

space :
    (text : Text)
    → unescape_mount_point (b'\\' ∷ b'0' ∷ b'4' ∷ b'0' ∷ text) ≡ 32 ∷ unescape_mount_point text
unfolding unescape_mount_point
space text = refl

backslash :
    (text : Text)
    → unescape_mount_point (b'\\' ∷ b'1' ∷ b'3' ∷ b'4' ∷ text) ≡ 92 ∷ unescape_mount_point text
unfolding unescape_mount_point
backslash text = refl

unescape-escape_char :
    (c : ℕ) (text : Text)
    → unescape_mount_point (escape_char c ++ text) ≡ c ∷ unescape_mount_point text
unescape-escape_char c text = elim (Bool-cases (c == 9)) [
  | inl a ↦ let e : c ≡ 9 = ground arith in rw e (tab text)
  | inr a ↦ elim (Bool-cases (c == 10)) [
    | inl b ↦ let e : c ≡ 10 = ground arith in rw e (line_feed text)
    | inr b ↦ elim (Bool-cases (c == 32)) [
      | inl d ↦ let e : c ≡ 32 = ground arith in rw e (space text)
      | inr d ↦ elim (Bool-cases (c == 92)) [
        | inl f ↦ let e : c ≡ 92 = ground arith in rw e (backslash text)
        | inr f ↦ rw (a, b, d, f) (plain_char c text f)
      ]
    ]
  ]
]

-- A path in which the kernel has escaped spaces, tabs, newlines and backslashes is read back as it
-- was, whatever characters it has.
pub unescape_mount_point-escape : (path : Text) → unescape_mount_point (escape path) ≡ path
unfolding unescape_mount_point
unescape_mount_point-escape [] = refl
unescape_mount_point-escape (c ∷ cs) =
    unescape-escape_char c (escape cs) ∙ ap (◌∷◌ c) (unescape_mount_point-escape cs)
