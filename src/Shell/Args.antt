-- ===== src/Shell/Args.antt =====
-- argstart, argnext, argnextvalue and argvalue of lib/args.c.
--
-- The strings are in memory; `argv` is the array of their addresses, with a NULL (0) behind the
-- last. `empty` is the address of the string literal "".
use mit_jos_f22_advanced_os.Base.{
  ℕ, ◌+◌, ◌-◌, ◌&&◌, ◌||◌, not, ltb, leb, ◌==◌, if◌then◌else◌, Option, none, some,
}
use mit_jos_f22_advanced_os.Libc.Bytes.{Memory}

-- `struct Argstate`, with *argc and the array behind argv.
pub record Argstate : Type 0 where
  pub argc : ℕ
  pub argv : ℕ → ℕ
  pub curarg : ℕ
  pub argvalue : ℕ

-- The memmove that takes argument 1 out, and the decrement of *argc: `argc - 1` pointers are moved.
abbrev pub shift_down : Argstate → Argstate
shift_down st = record st {
  argv = λ i. if leb 1 i && ltb i st.argc then st.argv (i + 1) else st.argv i;
  argc = st.argc - 1;
}

unfoldable pub argstart : ℕ → ℕ → (ℕ → ℕ) → Argstate
argstart empty argc argv = record {
  argc = argc;
  argv = argv;
  curarg = if ltb 1 argc then empty else 0;
  argvalue = 0;
}

abbrev pub endofargs : Argstate → Option ℕ × Argstate
endofargs st = (none, record st { curarg = 0 })

-- The next character of the current argument.
abbrev pub next_char : Memory → Argstate → Option ℕ × Argstate
next_char m st = (some (m st.curarg), record st { curarg = st.curarg + 1 })

-- The result -1 is `none`. Argument 1 is only read when there is one.
unfoldable pub argnext : Memory → Argstate → Option ℕ × Argstate
argnext m st₀ =
    let st = record st₀ { argvalue = 0 } in
    if st.curarg == 0
    then (none, st)
    else if m st.curarg == 0
    then (if (st.argc == 1) || not (m (st.argv 1) == b'-') || (m (st.argv 1 + 1) == 0)
        then endofargs st
        else new_argument (record (shift_down st) { curarg = st.argv 1 + 1 }))
    else next_char m st
  where
    new_argument : Argstate → Option ℕ × Argstate
    new_argument st =
        if (m st.curarg == b'-') && (m (st.curarg + 1) == 0) then endofargs st else next_char m st

unfoldable pub argnextvalue : ℕ → Memory → Argstate → ℕ × Argstate
argnextvalue empty m st =
    if st.curarg == 0
    then (0, st)
    else if not (m st.curarg == 0)
    then (st.curarg, record st { argvalue = st.curarg; curarg = empty })
    else if ltb 1 st.argc
    then (st.argv 1, record (shift_down st) { argvalue = st.argv 1 })
    else (0, record st { argvalue = 0; curarg = 0 })

unfoldable pub argvalue_of : ℕ → Memory → Argstate → ℕ × Argstate
unfolding argnextvalue
argvalue_of empty m st =
    if not (st.argvalue == 0) then (st.argvalue, st) else argnextvalue empty m st
