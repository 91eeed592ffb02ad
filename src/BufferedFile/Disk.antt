-- ===== src/BufferedFile/Disk.antt =====
-- What pkg/BufferedFile uses of the package os: one file, and the handle that is open on it.
use paintty_server_go.Prelude.{
  ℕ, ◌+◌, ◌-◌, Bool, true, false, List, [], ◌∷◌, ◌++◌, Bytes, Option, none, some, Error, io_failure,
  Result, ok, err, ◌==◌, if◌then◌else◌, length, take, drop, replicate,
}
use paintty_server_go.Prelude.Int.{ℤ, pos, negsuc}

-- What the operating system does with the next call that may fail: it carries it out, or reports
-- an error, a write after its first n bytes.
pub data Outcome : Type 0 where
  works : Outcome
  breaks : ℕ → Outcome

-- The calls still to come take their outcomes from `outcomes`, in order; when it is empty, all of
-- them work.
pub record File : Type 0 where
  pub content : Bytes
  pub cursor : ℕ
  pub is_open : Bool
  pub outcomes : List Outcome

abbrev pub later : List Outcome → List Outcome
later [] = []
later (o ∷ os) = os

-- The outcome of a call on the handle: on a closed one it fails at once.
abbrev pub outcome : File → Outcome
outcome f = elim f.outcomes [ [] ↦ works | o ∷ os ↦ o ]

abbrev pub handle_outcome : File → Outcome
handle_outcome f = if f.is_open then outcome f else breaks 0

-- A write at a position, over what stands there; past the end the gap is filled with zeros.
abbrev pub write_at : ℕ → Bytes → Bytes → Bytes
write_at i d c = take i c ++ (replicate (i - length c) 0 ++ (d ++ drop (i + length d) c))

abbrev pub written : File → Bytes → File
written f d = record f {
  content = write_at f.cursor d f.content;
  cursor = f.cursor + length d;
  outcomes = later f.outcomes;
}

-- File.Write: the file afterwards, the count, and the error.
unfoldable pub write : File → Bytes → File × ℕ × Option Error
write f d = elim (handle_outcome f) [
  | works ↦ (written f d, length d, none)
  | breaks n ↦ (written f (take n d), length (take n d), some io_failure)
]

-- os.OpenFile with O_RDWR and O_CREATE, then Seek(0, 2). The flag says whether it worked; if not,
-- the old handle stays as it was.
unfoldable pub open_file : File → File × Bool
open_file f = elim (outcome f) [
  | works ↦
      (record f { cursor = length f.content; is_open = true; outcomes = later f.outcomes }, true)
  | breaks n ↦ (record f { outcomes = later f.outcomes }, false)
]

-- File.Close, File.Seek(0, 0) and os.Remove, whose errors the code drops. The file that a later
-- open creates is empty.
abbrev pub close : File → File
close f = record f { is_open = false }

abbrev pub rewind : File → File
rewind f = record f { cursor = 0 }

abbrev pub remove : File → File
remove f = record f { content = [] }

-- File.Truncate(0): the cursor stays.
unfoldable pub truncate : File → File × Option Error
truncate f = elim (handle_outcome f) [
  | works ↦ (record f { content = []; outcomes = later f.outcomes }, none)
  | breaks n ↦ (record f { outcomes = later f.outcomes }, some io_failure)
]

-- File.ReadAt of n bytes: those that were read, and the error. It refuses a negative offset, and
-- reports io.EOF where the file ends before n bytes.
unfoldable pub read : File → ℕ → ℤ → Bytes × Option Error
read f n (negsuc o) = ([], some io_failure)
read f n (pos o) =
    let found : Bytes = take n (drop o f.content) in
    if n == 0 then ([], none) else elim (handle_outcome f) [
      | works ↦ (found, if length found == n then none else some io_failure)
      | breaks k ↦ (take k found, some io_failure)
    ]

-- File.Stat, for the size.
unfoldable pub stat : File → File × Result ℕ
stat f = elim (handle_outcome f) [
  | works ↦ (record f { outcomes = later f.outcomes }, ok (length f.content))
  | breaks n ↦ (record f { outcomes = later f.outcomes }, err io_failure)
]
