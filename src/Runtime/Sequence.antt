-- ===== src/Runtime/Sequence.antt =====
-- `Runtime._next_seq` of src/baresip/runtime.py: the next free sequence number of 32 bits.
pub mod Free
use baresip_python.Base.{
  ℕ, zero, suc, ◌+◌, ◌%◌, ◌^◌, List, ◌==◌, if◌then◌else◌, contains, length, true, false,
}

abbrev pub seq_mod : ℕ
seq_mod = 2 ^ 32

-- `(self._seq + 1) & 0xFFFFFFFF or 1`
unfoldable pub advance : ℕ → ℕ
advance seq = if (seq + 1) % seq_mod == 0 then 1 else (seq + 1) % seq_mod

-- The `while` loop over the numbers in use, with fuel.
unfoldable pub skip : ℕ → ℕ → List ℕ → ℕ
skip zero seq used = seq
skip (suc fuel) seq used = elim (contains seq used) [
  | true ↦ skip fuel (advance seq) used
  | false ↦ seq
]

-- As many rounds as there are numbers in use.
unfoldable pub next_seq : ℕ → List ℕ → ℕ
next_seq seq used = skip (length used) (advance seq) used
