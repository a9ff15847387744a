-- ===== src/Util/File.antt =====
-- pkg/util/file/file.go: the files in which found identities and checkpoints are kept. The disk is
-- explicit state; which calls of the package os fail, and how values are encoded, are records of
-- functions. A call returns its result and the disk that it leaves.
pub mod Identities
pub mod Checkpoints
pub mod Reading
pub mod Flatten
pub mod RoundTrip
pub mod Kept
pub mod Position
use Prim.Native.String.{◌++◌ as text_append}
use rekor_monitor.Base.{
  Bool, true, false, not, Option, none, some, Error, Result, ok, err, panic, context, String, List,
  [], ◌∷◌, keep, if◌then◌else◌,
}
use rekor_monitor.Base.Classes.{◌==◌, string_comparable}

-- The text of each file that exists.
abbrev pub Disk : Type 0
Disk = String → Option String

abbrev pub Written : Type 0
Written = Result (Unit {0}) × Disk

-- The error of each call of os, if it fails; `write` is a write to an open file.
pub record Os : Type 0 where
  pub open_append : String → Option Error
  pub write : String → String → Option Error
  pub write_file : String → String → Option Error

abbrev pub or_empty : Option String → String
or_empty none = ""
or_empty (some t) = t

abbrev pub put : String → String → Disk → Disk
put file text disk = λ name. if name == file then some text else disk name

-- os.WriteFile, which replaces the text of the file
unfoldable pub write_file : Os → String → String → Disk → Written
write_file os file text disk = elim (os.write_file file text) [
  | some e ↦ (err e, disk)
  | none ↦ (ok tt, put file text disk)
]

-- A write to a file that is open with O_APPEND
unfoldable pub append_text : Os → String → String → Disk → Written
append_text os file text disk = elim (os.write file text) [
  | some e ↦ (err e, disk)
  | none ↦ (ok tt, put file (text_append (or_empty (disk file)) text) disk)
]

-- `if err != nil { return fmt.Errorf(text, err) }`, and then the rest
abbrev pub then_on : String → Written → (Disk → Written) → Written
then_on text (ok _, disk) next = next disk
then_on text (err e, disk) next = (context text (err e), disk)
then_on text (panic p, disk) next = (panic p, disk)

-- `if err != nil { return err }`, and then the rest
abbrev pub then_do : Written → (Disk → Written) → Written
then_do (ok _, disk) next = next disk
then_do (err e, disk) next = (err e, disk)
then_do (panic p, disk) next = (panic p, disk)
