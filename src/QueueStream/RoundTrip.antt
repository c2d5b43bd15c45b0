-- ===== src/QueueStream/RoundTrip.antt =====
-- What `operator<<` writes, `operator>>` reads.
use cpp_atmi.Prelude.{ℕ, ◌≡◌, refl, ◌≢◌, List, [], ◌∷◌, ◌++◌, some, arith, ap, ◌∙◌}
use cpp_atmi.Atmi.Codes.{Constants}
use cpp_atmi.Atmi.Texts.{Text, Texts}
use cpp_atmi.Atmi.Calls.{Atmi, Queueing, Ptr}
use cpp_atmi.Method.{ok}
use cpp_atmi.Queue.{Queue}
use cpp_atmi.QueueStream.{QueueStream}
use cpp_atmi.QueueStream.Server.{View, IsServer, lines, with_data}
use cpp_atmi.QueueStream.Export.{Exporter, export}
use cpp_atmi.QueueStream.Export.Drains.{export-drains}
use cpp_atmi.QueueStream.Import.{next_char, get_lines, import}
use cpp_atmi.QueueStream.Import.Appends.{Imports, import-Imports}

-- A text without a newline.
abbrev pub IsLine : Text → Type 0
IsLine [] = Unit {0}
IsLine (c ∷ cs) = (c ≢ 10) × IsLine cs

abbrev pub AreLines : List Text → Type 0
AreLines [] = Unit {0}
AreLines (m ∷ ms) = IsLine m × AreLines ms

get_lines-line : (m rest : Text) → IsLine m → get_lines (m ++ 10 ∷ rest) ≡ m ∷ get_lines rest
unfolding get_lines next_char
get_lines-line [] rest p = refl
get_lines-line (c ∷ m) rest p = ground (arith, get_lines-line m rest p.1)

-- Lines that are written one after the other are read back, if none has a newline in it.
pub get_lines-lines : (ms : List Text) → AreLines ms → get_lines (lines ms) ≡ ms
unfolding lines get_lines
get_lines-lines [] p = refl
get_lines-lines (m ∷ ms) p =
    get_lines-line m (lines ms) p.0 ∙ ap (λ r. m ∷ r) (get_lines-lines ms p.1)

pub AreLines-with_data : (ms : List Text) → AreLines ms → AreLines (with_data ms)
unfolding with_data
AreLines-with_data [] p = tt
AreLines-with_data ([] ∷ ms) p = AreLines-with_data ms p.1
AreLines-with_data ((c ∷ cs) ∷ ms) p = (p.0, AreLines-with_data ms p.1)

module _ {W : Type 0} ⦃a : Atmi W⦄ ⦃t : Texts⦄ ⦃k : Constants⦄ ⦃s : Queueing W⦄
    {qspace queue qspace' queue' : Text} {flags flags' : ℕ} {view : W → View}
    {form : W → Ptr → ℕ → Text} (law : IsServer qspace queue flags view form)
    (law' : IsServer qspace' queue' flags' view form) where
  pub import-export :
      (fuel : ℕ) (qs qs' : QueueStream) (q q' : Queue) (w v : W) (x : Exporter) (w' : W)
      → q.qspace ≡ some qspace
      → q.name ≡ some queue
      → qs.flags ≡ flags
      → q'.qspace ≡ some qspace'
      → q'.name ≡ some queue'
      → qs'.flags ≡ flags'
      → AreLines (view w).contents
      → export fuel qs q [] w ≡ some (ok tt, x, w')
      → Imports law' (with_data (view w).contents) v (import x.out qs' q' v)
  import-export fuel qs qs' q q' w v x w' a₁ a₂ a₃ b₁ b₂ b₃ each e =
      let drained = export-drains law fuel qs q [] w x w' a₁ a₂ a₃ e in
      rw
        (
          ← get_lines-lines (with_data (view w).contents)
              (AreLines-with_data (view w).contents each),
          ← drained.0,
        )
        (import-Imports law' x.out qs' q' v b₁ b₂ b₃)
