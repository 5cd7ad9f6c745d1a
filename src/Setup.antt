-- ===== src/Setup.antt =====
-- internal/setup: the files that the set-up of the agents reads and writes.
pub mod Texts
pub mod Occurrences
pub mod Block
pub mod Markers
pub mod Idempotent
pub mod Config
pub mod Agents
use Prim.Native.Char.{Char}
use runtime_pulse.Prelude.{
  String, Option, none, some, List, [], ◌∷◌, Result, ok, err, ◌==◌, if◌then◌else◌,
}

-- A text by its characters.
abbrev pub Text : Type 0
Text = List Char

unfoldable pub chars : String → Text
chars String.[] = []
chars (String.◌∷◌ c s) = c ∷ chars s

-- What os.ReadFile finds.
pub data Found : Type 0 where
  missing : Found
  unreadable : String → Found
  present : Text → Found

-- The files, and which of them cannot be written: the error of the first of MkdirAll, CreateTemp,
-- Write, Close and Rename that fails. The temporary file, which is removed then, is not among them.
pub record Disk : Type 0 where
  pub files : String → Found
  pub write_fault : String → Option String

abbrev pub written_over : String → Text → Disk → Disk
written_over path content d = record d {
  files = λ p. if p == path then present content else d.files p;
}

abbrev write_with : Option String → String → Text → Disk → Result (Unit {0}) × Disk
write_with none path content d = (ok tt, written_over path content d)
write_with (some e) path content d = (err e, d)

-- atomicWrite: the file has its new text, or it stays.
unfoldable pub atomic_write : String → Text → Disk → Result (Unit {0}) × Disk
atomic_write path content d = write_with (d.write_fault path) path content d
