-- ===== src/Util/File/Reading.antt =====
-- readLastCheckpoint, ReadLatestCheckpointRekorV1, ReadLatestCTSignedTreeHead and
-- ReadIdentityMetadata; the decoders are arguments. bufio.Scanner is written out: it ends a line at
-- a newline or at the end, drops one carriage return there, gives no empty last line, and stops with
-- an error at a line of 65536 bytes.
use Prim.Native.String.{◌++◌ as text_append}
use rekor_monitor.Base.{
  ℕ, ◌+◌, Option, none, some, Error, Result, ok, err, msg, ◌>>=◌, String, eqb, if◌then◌else◌,
}
use rekor_monitor.Base.Classes.{◌==◌, string_comparable}
use rekor_monitor.Base.Text.{is_blank}
use rekor_monitor.Util.File.{Disk}

abbrev max_token_size : ℕ
max_token_size = 65_536

abbrev pub drop_return : String → String
drop_return String.[] = ""
drop_return (String.◌∷◌ c s) =
    let rest = drop_return s in if String.◌∷◌ c s == "\r" then "" else String.◌∷◌ c rest

-- The last line of a text: `last` is the line before, `line` what is read of this one, `n` its size.
unfoldable pub last_line : ℕ → String → String → String → Result String
last_line n last line String.[] = ok (if is_blank line then last else drop_return line)
last_line n last line (String.◌∷◌ c s) =
    let next = last_line 0 (drop_return line) "" s in
    let longer = last_line (n + 1) last (text_append line (String.◌∷◌ c String.[])) s in
    if String.◌∷◌ c String.[] == "\n"
    then next
    else if eqb (n + 1) max_token_size
    then err (msg "bufio.Scanner: token too long")
    else longer

-- strings.ReplaceAll(line, "\\n", "\n")
unfoldable pub unflatten : String → String
unflatten String.[] = ""
unflatten (String.◌∷◌ c String.[]) = String.◌∷◌ c String.[]
unflatten (String.◌∷◌ c (String.◌∷◌ d s)) =
    let replaced = text_append "\n" (unflatten s) in
    let kept = String.◌∷◌ c (unflatten (String.◌∷◌ d s)) in
    if String.◌∷◌ c (String.◌∷◌ d String.[]) == "\\n" then replaced else kept

-- `open` is the error of os.Open for a file that exists.
unfoldable pub read_last_checkpoint : (String → Option Error) → String → Disk → Result String
unfolding last_line unflatten
read_last_checkpoint open_error file disk = elim (disk file) [
  | none ↦ err (msg "no such file or directory")
  | some text ↦ elim (open_error file) [
    | some e ↦ err e
    | none ↦ last_line 0 "" "" text >>= λ line. ok (unflatten line)
  ]
]

-- ReadLatestCheckpointRekorV1 and ReadLatestCheckpointRekorV2, for the decoder of the checkpoint
unfoldable pub read_latest_checkpoint :
    {C : Type 0} → (String → Result C) → (String → Option Error) → String → Disk → Result C
unfolding read_last_checkpoint
read_latest_checkpoint unmarshal open_error file disk =
    read_last_checkpoint open_error file disk >>= λ text. unmarshal text

-- os.ReadFile, where `read_error` is its error for a file that exists
unfoldable pub read_file : (String → Option Error) → String → Disk → Result String
read_file read_error file disk = elim (disk file) [
  | none ↦ err (msg "no such file or directory")
  | some text ↦ elim (read_error file) [ some e ↦ err e | none ↦ ok text ]
]

-- `unmarshal` is json.Unmarshal into a signed tree head.
unfoldable pub read_latest_ct_signed_tree_head :
    {C : Type 0} → (String → Result C) → (String → Option Error) → String → Disk → Result C
unfolding read_file unflatten
read_latest_ct_signed_tree_head unmarshal read_error file disk =
    read_file read_error file disk >>= λ text. unmarshal (unflatten text)

-- `unmarshal` is json.Unmarshal into an identity metadata.
unfoldable pub read_identity_metadata :
    {M : Type 0} → (String → Result M) → (String → Option Error) → String → Disk → Result M
unfolding read_file
read_identity_metadata unmarshal read_error file disk =
    read_file read_error file disk >>= λ text. unmarshal text
