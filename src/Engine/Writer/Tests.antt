-- ===== src/Engine/Writer/Tests.antt =====
-- Concrete runs of src/engine/src/ValueWriter.cpp.
use zircon_dumper.Prelude.{◌≡◌, ◌≢◌, ◌⊎◌, refl, true, false, some, [], arith}
use zircon_dumper.Prelude.Int.{pos, negsuc, decimal_int}
use zircon_dumper.Prelude.Preds.{Bytes}
use zircon_dumper.Prelude.Text.{codes}
use zircon_dumper.Memory.Source.{Source}
use zircon_dumper.Engine.Writer.{
  digit_value, trim_front, trim_end, trim, from_chars, to_int64, signed_value, magnitude_of,
  signed_text, parse_signed, to_word64, low_bytes, failed, does_not_fit, written_as, write_integer,
}
use zircon_dumper.Engine.Writer.Printed.{parse_signed-decimal_int}
use zircon_dumper.Engine.Writer.Survives.{word_of, held, write_integer-Outcome}

-- A source whose state is what was written last.
abbrev slot : Source Bytes
slot = record {
  read = λ s address size. s;
  write = λ s address bytes. (bytes, true);
  enable_writes = λ s on. (s, true);
  invalidate = λ s. s;
  rescan_modules = λ s. s;
  live_objects = λ s. true;
}

-- Three hundred into a byte.
write_integer-Outcome_example :
    ((held 1 false (word_of (low_bytes 1 (to_word64 (pos 300)))) ≢ pos 300)
      × (write_integer slot [] 64 (pos 300) 1 false ≡ ([], failed does_not_fit)))
    ⊎ ((held 1 false (word_of (low_bytes 1 (to_word64 (pos 300)))) ≡ pos 300)
        × (write_integer slot [] 64 (pos 300) 1 false
            ≡ written_as (pos 300) (slot.write [] 64 (low_bytes 1 (to_word64 (pos 300))))))
write_integer-Outcome_example =
    write_integer-Outcome slot [] 64 (pos 300) 1 false (omega arith) (omega arith)

-- The largest number of 64 bits without a sign is read as minus one.
parse_signed_wraps : parse_signed (pos 0) (codes "18446744073709551615") ≡ some (negsuc 0)
unfolding parse_signed signed_text trim trim_end trim_front signed_value magnitude_of from_chars
    digit_value to_int64
parse_signed_wraps = refl

parse_signed-decimal_int_example : parse_signed (pos 0) (decimal_int (negsuc 41)) ≡ some (negsuc 41)
parse_signed-decimal_int_example = parse_signed-decimal_int (pos 0) (negsuc 41) (omega arith)
