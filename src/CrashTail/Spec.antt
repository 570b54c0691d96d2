-- ===== src/CrashTail/Spec.antt =====
-- What the crash controller reads of the system, its spec, and its checks before any process is opened.
use samgita.Prelude.{
  ℕ, Bool, true, false, not, Option, none, some, String, Text, codes, str_eq, if◌then◌else◌, ◌&&◌,
  ltb, ◌==◌, all, is_digit, length, Result, ok, raise, ◌>>=◌, ◌>>◌, List, [], ◌∷◌,
}
use samgita.Json.{
  Value, null, number, text, list, Items, nil, cons, Fields, get, get_or, size_fields,
}
use samgita.Json.Equality.{equal}
use samgita.CrashTail.Proc.{Failure, runtime_error, os_error, index_error, type_error, require}

-- The two times that the facts are read and the descriptors polled: before and after the other checks.
pub data Moment : Type 0 where
  first_look last_look : Moment

-- The system. Each read has an answer of its own, so a process may end or be replaced between any two;
-- `none` is an OSError, of a file or of a process that is gone. A descriptor of pidfd_open stands for the
-- process that had the pid then, whatever has the pid later. `executable` and `cwd` are device and inode
-- of a process's, the expected ones those of a path, as they are next to the read of that process.
pub record World : Type 0 where
  pub has_pidfds : Bool
  pub own_pid : ℕ
  pub digest : String → Option String
  -- pidfd_open(pid)
  pub pidfd_open : ℕ → Option ℕ
  -- not select([fd], …)
  pub alive : Moment → (fd : ℕ) → Bool
  -- The files of /proc/{pid}.
  pub stat : Moment → ℕ → Option Text
  pub cmdline : ℕ → Option Text
  pub environ : ℕ → Option Text
  pub executable : ℕ → Option (ℕ × ℕ)
  pub expected_executable : ℕ → String → Option (ℕ × ℕ)
  pub exe_digest : ℕ → Option String
  pub cwd : ℕ → Option (ℕ × ℕ)
  pub expected_cwd : ℕ → String → Option (ℕ × ℕ)
  -- pidfd_send_signal finds the process of a descriptor; it exits within five seconds.
  pub sends : (fd : ℕ) → Bool
  pub exits : (fd : ℕ) → Bool
  -- /proc/{pid} exists, at the end.
  pub has_proc : ℕ → Bool

abbrev pub found {ℓ} : {A : Type ℓ} → Option A → Result Failure A
found none = raise os_error
found (some a) = ok a

pub record Spec : Type 0 where
  pub parent_pid : ℕ
  pub native_pid : ℕ
  pub helper_pid : ℕ
  pub native_start : String
  pub helper_start : String
  pub native_argv : Items
  pub helper_argv : Items
  pub home : String
  pub codex_home : String
  pub cwd : String
  pub binary : String
  pub binary_sha256 : String
  pub helper : String
  pub helper_sha256 : String
  pub python : String

abbrev string_of : Value → Result Failure String
string_of (text s) = ok s
string_of _ = raise type_error

abbrev list_of : Value → Result Failure Items
list_of (list xs) = ok xs
list_of _ = raise type_error

-- type(pid) is int and pid > 1
abbrev pid_of : Value → Result Failure ℕ
pid_of (number n) = if ltb 1 n then ok n else raise (runtime_error "Owned crash PID types")
pid_of _ = raise (runtime_error "Owned crash PID types")

abbrev spec_keys : List String
spec_keys =
    "parent_pid" ∷ "native_pid" ∷ "helper_pid" ∷ "native_start" ∷ "helper_start" ∷ "native_argv"
    ∷ "helper_argv" ∷ "home" ∷ "codex_home" ∷ "cwd" ∷ "binary" ∷ "binary_sha256" ∷ "helper"
    ∷ "helper_sha256" ∷ "python" ∷ []

-- set(spec) == keys, where the keys of a dict differ.
has_keys : List String → Fields → Bool
has_keys [] spec = true
has_keys (key ∷ keys) spec = elim (get key spec) [ none ↦ false | some v ↦ has_keys keys spec ]

-- The shape of the spec. Fields of another type than the script uses raise when they are used.
unfoldable pub read_spec : Fields → Result Failure Spec
unfolding has_keys
read_spec spec = do
  require (has_keys spec_keys spec && size_fields spec == length spec_keys)
      "Owned crash spec fields"
  native ← pid_of (get_or null "native_pid" spec)
  helper ← pid_of (get_or null "helper_pid" spec)
  parent ← pid_of (get_or null "parent_pid" spec)
  native_start ← string_of (get_or null "native_start" spec)
  helper_start ← string_of (get_or null "helper_start" spec)
  native_argv ← list_of (get_or null "native_argv" spec)
  helper_argv ← list_of (get_or null "helper_argv" spec)
  home ← string_of (get_or null "home" spec)
  codex_home ← string_of (get_or null "codex_home" spec)
  cwd ← string_of (get_or null "cwd" spec)
  binary ← string_of (get_or null "binary" spec)
  binary_sha256 ← string_of (get_or null "binary_sha256" spec)
  helper_path ← string_of (get_or null "helper" spec)
  helper_sha256 ← string_of (get_or null "helper_sha256" spec)
  python ← string_of (get_or null "python" spec)
  ok (record {
    parent_pid = parent;
    native_pid = native;
    helper_pid = helper;
    native_start = native_start;
    helper_start = helper_start;
    native_argv = native_argv;
    helper_argv = helper_argv;
    home = home;
    codex_home = codex_home;
    cwd = cwd;
    binary = binary;
    binary_sha256 = binary_sha256;
    helper = helper_path;
    helper_sha256 = helper_sha256;
    python = python;
  })

abbrev is_decimal : Text → Bool
is_decimal [] = false
is_decimal (c ∷ t) = all is_digit (c ∷ t)

-- len({native, helper, parent, os.getpid()}) == 4
four_differ : ℕ → ℕ → ℕ → ℕ → Bool
four_differ a b c d =
    not (a == b) && not (a == c) && not (a == d) && not (b == c) && not (b == d) && not (c == d)

first_is : Items → String → Result Failure Bool
first_is nil binary = raise index_error
first_is (cons v vs) binary = ok (equal v (text binary))

-- The checks before any process is opened.
unfoldable pub preconditions : World → Spec → Result Failure (Unit {0})
unfolding four_differ first_is
preconditions w s = do
  require (four_differ s.native_pid s.helper_pid s.parent_pid w.own_pid)
      "Owned crash parent binding"
  require (is_decimal (codes s.native_start) && is_decimal (codes s.helper_start))
      "Owned crash start identities"
  first ← first_is s.native_argv s.binary
  require
      (first
        && equal (list s.helper_argv)
            (list (cons (text s.python) (cons (text s.helper) s.native_argv))))
      "Owned crash expected argv relationship"
  binary_hash ← found (w.digest s.binary)
  require (str_eq binary_hash s.binary_sha256) "Owned native binary hash"
  helper_hash ← found (w.digest s.helper)
  require (str_eq helper_hash s.helper_sha256) "Owned stdio helper hash"
