-- ===== src/Cli/Output.antt =====
-- cli/main.go: the staged output, with what the commands ask of the operating system.
use unicodec.Base.{ℕ, ◌+◌, Bool, ◌||◌, Option, none, some, List, [], ◌∷◌, ◌==◌, if◌then◌else◌}
use unicodec.Base.{length, Bytes, equal}
use unicodec.Text.{ascii}
use unicodec.Failure.{Result, ok, err, short_write, system}
use unicodec.Run.{Run, done, fail, M, ◌>>=◌, lift}
use unicodec.Source.{Source, Ending, at_eof, broken}
use unicodec.Encoder.{Writer, Answer, Written, put, Spool}
use unicodec.Container.{chunks}
use unicodec.Cli.{Outcome, value, failed, usage}

-- What the operating system answers in one run of a command. `same_file` is whether `os.Stat` finds
-- both paths and `os.SameFile` holds of them, `stdin_is` the same of the standard input, where it
-- is a file; `directory` is `filepath.Dir`; an `Option ℕ` is the error of a call or none.
pub record System : Type 0 where
  pub key_variable : Option Bytes
  pub read_file : Bytes → Result Bytes
  pub open_file : Bytes → Result Source
  pub same_file : Bytes → Bytes → Bool
  pub stdin : Source
  pub stdin_is : Bytes → Bool
  pub stdin_close : Option ℕ
  pub directory : Bytes → Bytes
  pub create_temp : Bytes → Result (ℕ → Answer)
  pub temp_close : Option ℕ
  pub rename : Option ℕ
  pub temp_open : Result Ending
  pub remove : Option ℕ
  pub spool : Result Spool
  pub random : Result Bytes
  pub room : ℕ → ℕ
  pub block : ℕ

-- The temporary file of `stagedOutput`: open as its `file`, closed with its bytes under its `path`,
-- or no longer there.
pub data Temp : Type 0 where
  opened : Writer → Temp
  closed : Bytes → Temp
  gone : Temp

-- What a command can write to: the temporary file, the file under the output path, and stdout.
pub record Place : Type 0 where
  pub temp : Temp
  pub target : Option Bytes
  pub stdout : Writer

abbrev pub is_dash : Bytes → Bool
is_dash path = equal path (ascii "-")

abbrev pub answered : Option ℕ → Result (Unit {0})
answered none = ok tt
answered (some e) = err (system e)

-- `newStagedOutput`: the file that it has created.
unfoldable pub new_staged_output : System → Bytes → Result Writer
new_staged_output sys output_path =
    elim (sys.create_temp (if is_dash output_path then [] else sys.directory output_path)) [
      | ok answers ↦ ok (record { content = []; answers = answers })
      | err f ↦ err f
    ]

-- One `Write` of `io.Copy`.
abbrev pub copied : Bytes → Written → Run Writer (Unit {0})
copied bs r = elim r.error [
  | some f ↦ fail f r.after
  | none ↦ if r.count == length bs then done tt r.after else fail short_write r.after
]

abbrev pub copy_block : Bytes → M Writer (Unit {0})
copy_block bs w = if length bs == 0 then done tt w else copied bs (put bs w)

pub copy_blocks : List Bytes → M Writer (Unit {0})
copy_blocks [] w = done tt w
copy_blocks (b ∷ bs) w = copy_block b w >>= λ _. copy_blocks bs

abbrev pub ended : Ending → Result (Unit {0})
ended at_eof = ok tt
ended (broken e) = err (system e)

abbrev pub on_stdout : Place → Run Writer (Unit {0}) → Run Place (Unit {0})
on_stdout p (done u w) = done u (record p { stdout = w })
on_stdout p (fail f w) = fail f (record p { stdout = w })

-- The bytes of the temporary file, once it is closed.
pub close_temp : System → Temp → Run Temp Bytes
close_temp sys (opened w) = elim sys.temp_close [
  | none ↦ done w.content (closed w.content)
  | some e ↦ fail (system e) (opened w)
]
close_temp sys (closed bytes) = done bytes (closed bytes)
close_temp sys gone = done [] gone

abbrev pub at_temp : {A : Type 0} → Place → Run Temp A → Run Place A
at_temp p (done a t) = done a (record p { temp = t })
at_temp p (fail f t) = fail f (record p { temp = t })

abbrev pub renamed : System → Bytes → M Place (Unit {0})
renamed sys bytes p =
    lift (answered sys.rename) p >>= λ _ q. done tt (record q { temp = gone; target = some bytes })

abbrev pub printed : System → Bytes → M Place (Unit {0})
printed sys bytes p = lift sys.temp_open p >>= λ ending q.
    on_stdout q (copy_blocks (chunks (sys.block + 1) bytes) q.stdout >>= λ _. lift (ended ending))

-- `publish`
unfoldable pub publish : System → Bytes → M Place (Unit {0})
unfolding close_temp
publish sys output_path p = at_temp p (close_temp sys p.temp) >>= λ bytes.
    if is_dash output_path then printed sys bytes else renamed sys bytes

abbrev removed : System → Bytes → Temp
removed sys bytes = elim sys.remove [ none ↦ gone | some e ↦ closed bytes ]

-- `discard`
unfoldable pub discard : System → Place → Place
discard sys p = record p {
  temp = elim p.temp [
    | opened w ↦ removed sys w.content
    | closed bytes ↦ removed sys bytes
    | gone ↦ gone
  ];
}

-- `closeStdinBeforeReplace`
unfoldable pub close_stdin_before_replace : System → Bytes → Result (Unit {0})
close_stdin_before_replace sys output_path =
    if is_dash output_path
    then ok tt
    else if sys.stdin_is output_path
    then answered sys.stdin_close
    else ok tt

-- `rejectOutputAliases`
unfoldable pub reject_output_aliases : System → Bytes → List Bytes → Outcome (Unit {0})
reject_output_aliases sys output_path [] = value tt
reject_output_aliases sys output_path (source ∷ sources) =
    let rest = reject_output_aliases sys output_path sources in
    if is_dash output_path
    then value tt
    else if length source == 0 || is_dash source
    then rest
    else if sys.same_file source output_path
    then failed (usage none)
    else rest
