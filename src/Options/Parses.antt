-- ===== src/Options/Parses.antt =====
-- What the command line of an export gives.
use cpp_atmi.Prelude.{
  ℕ, zero, suc, ◌<◌, ◌≡◌, refl, ◌∙◌, Bool, true, false, ◌||◌, Option, none, some, List, [], ◌∷◌,
  arith, if◌then◌else◌,
}
use cpp_atmi.Prelude.Lists.{length, get_elem?}
use cpp_atmi.Atmi.Codes.{Constants}
use cpp_atmi.Atmi.Texts.{Text, Texts, bytes}
use cpp_atmi.Buffer.{to_size}
use cpp_atmi.Options.{
  Opt, opt_v, opt_u, opt_s, opt_p, opt_g, opt_b, opt_q, opt_d, opt_o, no_operand, unrecognized,
  Process, ExportOptions, version, set, set_queue, set_export, parse,
}

-- Options with an operand.
abbrev pub has_operand : Opt → Bool
has_operand opt_u = true
has_operand opt_s = true
has_operand opt_p = true
has_operand opt_g = true
has_operand opt_b = true
has_operand opt_q = true
has_operand opt_o = true
has_operand _ = false

abbrev pub same : Opt → Opt → Bool
same opt_v opt_v = true
same opt_u opt_u = true
same opt_s opt_s = true
same opt_p opt_p = true
same opt_g opt_g = true
same opt_b opt_b = true
same opt_q opt_q = true
same opt_d opt_d = true
same opt_o opt_o = true
same no_operand no_operand = true
same unrecognized unrecognized = true
same _ _ = false

-- What the operand of `-q` names: the two first of its parts.
pub record IsProcess {W : Type 0} ⦃p : Process W⦄ (arguments : Text) (rest : W → List (Opt × Text))
    (parts : Text → List Text) : Type 0 where
  pub ended : (w : W) → rest w ≡ [] → (p.getopt arguments w).0 ≡ none
  pub next :
      (w : W) (o : Opt) (s : Text) (os : List (Opt × Text))
      → rest w ≡ (o, s) ∷ os
      → let (opt, w') = p.getopt arguments w in
        (opt ≡ some o) × (has_operand o ≡ true → p.optarg w' ≡ some s) × (rest w' ≡ os)
  pub first :
      (w : W) (s : Text)
      → let (token, w') = p.strtok (some s) (bytes ":") w in
        let (token₂, w'') = p.strtok none (bytes ":") w' in
        (token ≡ get_elem? (parts s) 0) × (token₂ ≡ get_elem? (parts s) 1) × (rest w'' ≡ rest w)
  pub written : (w : W) (s : Text) → (rest (p.cout s w) ≡ rest w) × (rest (p.cerr s w) ≡ rest w)

-- The operand of the last option `o`, if there is one.
unfoldable pub last_operand : Opt → List (Opt × Text) → Option Text
last_operand o [] = none
last_operand o ((o', s) ∷ os) = elim (last_operand o os) [
  | some s' ↦ some s'
  | none ↦ if same o o' then some s else none
]

-- One of the options is a flag of this kind.
unfoldable pub occurs : (Opt → Bool) → List (Opt × Text) → Bool
occurs is_kind [] = false
occurs is_kind ((o, s) ∷ os) = is_kind o || occurs is_kind os

abbrev pub fails : Opt → Bool
fails opt_v = true
fails no_operand = true
fails unrecognized = true
fails _ = false

abbrev pub default : {A : Type 0} → (Text → A) → A → Option Text → A
default f a none = a
default f a (some s) = f s

-- A value after the options: that of the last one, or the one before.
pub default-last :
    {A : Type 0} (f : Text → A) (o o' : Opt) (s : Text) (os : List (Opt × Text)) (a : A)
    → default f a (last_operand o ((o', s) ∷ os))
      ≡ default f (if same o o' then f s else a) (last_operand o os)
unfolding last_operand
default-last f o o' s os a = ground arith

-- A flag after the options: set by any of them, or before.
flag-occurs :
    (is_kind : Opt → Bool) (o : Opt) (s : Text) (os : List (Opt × Text)) (b : Bool)
    → (b || occurs is_kind ((o, s) ∷ os)) ≡ ((b || is_kind o) || occurs is_kind os)
unfolding occurs
flag-occurs is_kind o s os b = ground arith

-- From the options `c`, the arguments `os` lead to `c'`. `size_of` reads a
-- number, and `parts` are what ":" separates.
pub record Reads (size_of : Text → ℕ) (parts : Text → List Text) (os : List (Opt × Text))
    (c c' : ExportOptions) : Type 0 where
  pub user :
      c'.queue_options.options.user
      ≡ default some c.queue_options.options.user (last_operand opt_u os)
  pub sys_passwd :
      c'.queue_options.options.sys_passwd
      ≡ default some c.queue_options.options.sys_passwd (last_operand opt_s os)
  pub app_passwd :
      c'.queue_options.options.app_passwd
      ≡ default some c.queue_options.options.app_passwd (last_operand opt_p os)
  pub group :
      c'.queue_options.options.group
      ≡ default some c.queue_options.options.group (last_operand opt_g os)
  pub buffer_size :
      c'.queue_options.options.buffer_size
      ≡ default size_of c.queue_options.options.buffer_size (last_operand opt_b os)
  pub qspace :
      c'.queue_options.qspace
      ≡ default (λ s. get_elem? (parts s) 0) c.queue_options.qspace (last_operand opt_q os)
  pub queue :
      c'.queue_options.queue
      ≡ default (λ s. get_elem? (parts s) 1) c.queue_options.queue (last_operand opt_q os)
  pub output_file : c'.output_file ≡ default some c.output_file (last_operand opt_o os)
  pub daemon : c'.daemon ≡ (c.daemon || occurs (same opt_d) os)
  pub failed : c'.queue_options.options.failed ≡ (c.queue_options.options.failed || occurs fails os)

Reads-refl :
    (size_of : Text → ℕ) (parts : Text → List Text) (c : ExportOptions) → Reads size_of parts [] c c
unfolding last_operand occurs
Reads-refl size_of parts c = ground arith

module _ {W : Type 0} ⦃p : Process W⦄ ⦃t : Texts⦄ ⦃k : Constants⦄ where
  abbrev pub size_of : Process W → Text → ℕ
  size_of p s = to_size (p.atoi (some s))

  module _ {arguments : Text} {rest : W → List (Opt × Text)} {parts : Text → List Text}
      (law : IsProcess arguments rest parts) where
    set_export-Reads :
        (o : Opt) (s : Text) (c : ExportOptions) (w : W)
        → (has_operand o ≡ true → p.optarg w ≡ some s)
        → let (c', w') = set_export o c w in
          Reads (size_of p) parts ((o, s) ∷ []) c c' × (rest w' ≡ rest w)
    unfolding set_export set_queue set version last_operand occurs
    set_export-Reads opt_v s c w h = (ground arith, (law.written w _).0)
    set_export-Reads opt_u s c w h = ground (arith, h)
    set_export-Reads opt_s s c w h = ground (arith, h)
    set_export-Reads opt_p s c w h = ground (arith, h)
    set_export-Reads opt_g s c w h = ground (arith, h)
    set_export-Reads opt_b s c w h = ground (arith, h)
    set_export-Reads opt_q s c w h = rw (h refl) (ground (arith, law.first w s))
    set_export-Reads opt_d s c w h = ground (arith, h)
    set_export-Reads opt_o s c w h = ground (arith, h)
    set_export-Reads no_operand s c w h = (ground arith, (law.written w _).1)
    set_export-Reads unrecognized s c w h = (ground arith, (law.written w _).1)
    set_export-Reads (Opt.other n) s c w h = ground arith

    Reads-trans :
        (o : Opt) (s : Text) (os : List (Opt × Text)) (c c₁ c' : ExportOptions)
        → Reads (size_of p) parts ((o, s) ∷ []) c c₁
        → Reads (size_of p) parts os c₁ c'
        → Reads (size_of p) parts ((o, s) ∷ os) c c'
    unfolding last_operand occurs
    Reads-trans o s os c c₁ c' h h' = ground (arith, h, h')

    parse-from :
        (fuel : ℕ) (os : List (Opt × Text)) (c : ExportOptions) (w : W)
        → rest w ≡ os
        → length os < fuel
        → (c' : ExportOptions) × (w' : W) × (parse set_export fuel arguments c w ≡ some (c', w'))
          × Reads (size_of p) parts os c c'
    unfolding parse
    parse-from zero os c w e h = absurd (omega (arith, h))
    parse-from (suc fuel) [] c w e h = (
      c,
      (p.getopt arguments w).1,
      rw (law.ended w e, parse) refl,
      Reads-refl (size_of p) parts c,
    )
    parse-from (suc fuel) ((o, s) ∷ os) c w e h =
        let (found, arg, left) = law.next w o s os e in
        let w₁ = (p.getopt arguments w).1 in
        let (c₁, w₂) = set_export o c w₁ in
        let (step, same) = set_export-Reads o s c w₁ arg in
        let (c', w', run, reads) = parse-from fuel os c₁ w₂ (same ∙ left) (omega (arith, h)) in
        (c', w', rw (found, parse) run, Reads-trans o s os c c₁ c' step reads)

    -- If the C library does what is documented, the options of an export are parsed to their end
    -- with fuel for one turn more than there are options. Of an option with an operand the last
    -- one counts, `-q` gives the queue space and the queue, and the parsing has failed if a
    -- `-v`, a missing operand or an unknown option is among them.
    pub parse-Reads :
        (fuel : ℕ) (c : ExportOptions) (w : W)
        → length (rest w) < fuel
        → (c' : ExportOptions) × (w' : W) × (parse set_export fuel arguments c w ≡ some (c', w'))
          × Reads (size_of p) parts (rest w) c c'
    parse-Reads fuel c w h = parse-from fuel (rest w) c w refl h
