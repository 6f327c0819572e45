-- ===== src/Signal/Actions.antt =====
-- do_sys_sigaction of kernel/signal.c.
use aurora_os_live.Base.{
  ℕ, Bool, none, some, List, [], ◌∷◌, ltb, leb, ◌==◌, if◌then◌else◌, get_or, set,
}
use aurora_os_live.Base.Int.{ℤ, pos, negsuc, minus_one}
use aurora_os_live.User.{copy_from_user, copy_to_user}
use aurora_os_live.User.Words.{words_bytes, buffer_words}
use aurora_os_live.Signal.{sigkill, nsig, Action, SignalState, action, Process, state_or_new}

abbrev pub action_bytes : Action → List ℕ
action_bytes a = words_bytes (a.sa_handler ∷ a.sa_flags ∷ a.sa_mask ∷ [])

abbrev pub action_of : List ℕ → Action
action_of buf = record {
  sa_handler = get_or (buffer_words buf 3) 0 0;
  sa_flags = get_or (buffer_words buf 3) 1 0;
  sa_mask = get_or (buffer_words buf 3) 2 0;
}

-- `if (act)`
unfoldable pub set_action : ℕ → ℕ → SignalState → Process → Process × ℤ
set_action s act g p = if act == 0 then (p, pos 0) else elim (copy_from_user p.space act 24) [
  | none ↦ (p, minus_one)
  | some buf ↦
      (record p { sig = some (record g { actions = set g.actions s (action_of buf) }) }, pos 0)
]

-- `if (oldact)`, and what follows
unfoldable pub swap_action : ℕ → ℕ → ℕ → SignalState → Process → Process × ℤ
swap_action s act oldact g p =
    if oldact == 0
    then set_action s act g p
    else elim (copy_to_user p.space oldact 24 (action_bytes (action g s))) [
      | none ↦ (p, minus_one)
      | some sp ↦ set_action s act g (record p { space = sp })
    ]

unfoldable pub do_sys_sigaction : Bool → ℤ → ℕ → ℕ → Process → Process × ℤ
do_sys_sigaction has_block (negsuc n) act oldact p = (p, minus_one)
do_sys_sigaction has_block (pos s) act oldact p =
    if ltb s 1
    then (p, minus_one)
    else if leb nsig s
    then (p, minus_one)
    else if s == sigkill
    then (p, minus_one)
    else elim (state_or_new has_block p.sig) [
      | none ↦ (p, minus_one)
      | some g ↦ swap_action s act oldact g (record p { sig = some g })
    ]
