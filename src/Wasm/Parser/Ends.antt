-- ===== src/Wasm/Parser/Ends.antt =====
-- Parse ends on every input.
use wasm2go.Prelude.{
  ℕ, zero, suc, ◌≤◌, ◌≡◌, ◌≢◌, ap, List, [], ◌∷◌, length, length-append, ltb, arith,
}
use wasm2go.Wasm.Reader.{ok, stuck, wrap, too_long, section, part, header, bad_magic, bad_version}
use wasm2go.Wasm.Reader.Total.{
  Total, Total-bind, Total-pure, Total-fail, Total-if, Total-wrapped, Total-refuse_if,
  Total-read_full, bind-ne-stuck, wrap-ne-stuck,
}
use wasm2go.Wasm.Leb128.Total.{Total-read_u32}
use wasm2go.Wasm.Module.{Module, empty_module}
use wasm2go.Wasm.Parser.Sections.{max_section_payload}
use wasm2go.Wasm.Parser.{
  parse_section, read_section, read_header, check_header, parse_sections, parse,
}
use wasm2go.Wasm.Parser.Local.{read_section-IsLocal}
use wasm2go.Wasm.Parser.Total.{Total-parse_section}

Total-check_header : (hdr : List ℕ) → Total (check_header hdr)
unfolding check_header
Total-check_header (a ∷ b ∷ c ∷ d ∷ e ∷ f ∷ g ∷ h ∷ []) =
    Total-if _ (Total-fail bad_magic) (Total-if _ (Total-fail bad_version) (Total-pure tt))
Total-check_header _ = Total-fail bad_magic

Total-read_header : Total read_header
unfolding read_header
Total-read_header = Total-bind (Total-wrapped (part header) (Total-read_full 8)) Total-check_header

-- One section, its payload parser included.
Total-read_section : (m : Module) (id : ℕ) → Total (read_section m id)
unfolding read_section
Total-read_section m id = Total-bind (Total-wrapped _ Total-read_u32) λ n.
    Total-bind (Total-refuse_if (ltb max_section_payload n) (section id (too_long n))) λ _.
      Total-bind (Total-wrapped _ (Total-read_full n)) λ raw. record {
        on = λ bs.
            bind-ne-stuck (wrap (section id) (parse_section m id raw)) (λ (m', left). ok (m', bs))
              (wrap-ne-stuck (section id) _ ((Total-parse_section m id).on raw)) (λ a e h. cc);
      }

length-read_section :
    (m : Module) (id : ℕ) (bs : List ℕ) (m' : Module) (rest : List ℕ)
    → read_section m id bs ≡ ok (m', rest)
    → length rest ≤ length bs
length-read_section m id bs m' rest h =
    let (used, split, reads) = (read_section-IsLocal m id).split bs m' rest h in
    omega (arith, ap length split, length-append used rest)

parse_sections-ne-stuck :
    (fuel : ℕ) (m : Module) (bs : List ℕ) → length bs ≤ fuel → parse_sections fuel m bs ≢ stuck
unfolding parse_sections
parse_sections-ne-stuck fuel m [] len = λ h. cc
parse_sections-ne-stuck zero m (id ∷ bs) len = absurd (omega arith)
parse_sections-ne-stuck (suc fuel) m (id ∷ bs) len =
    bind-ne-stuck (read_section m id bs) (λ (m', rest). parse_sections fuel m' rest)
      ((Total-read_section m id).on bs)
      (λ (m', rest) e.
        parse_sections-ne-stuck fuel m' rest (omega (arith, length-read_section m id bs m' rest e)))

-- Parse ends on every input: no loop of the model runs out of its fuel.
pub parse-ne-stuck : (bs : List ℕ) → parse bs ≢ stuck
unfolding parse
parse-ne-stuck bs = bind-ne-stuck (read_header bs) _ (Total-read_header.on bs) λ (_, rest) e.
    bind-ne-stuck (parse_sections (length rest) empty_module rest) _
      (parse_sections-ne-stuck (length rest) empty_module rest (omega arith)) (λ m k h. cc)
