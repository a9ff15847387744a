-- ===== src/Cmd/Loop/Chains.antt =====
-- The calls of the runs of the loop, as chains of searched ranges.
use rekor_monitor.Base.{
  ◌≡◌, refl, sym, subst, Option, none, some, String, List, [], ◌∷◌, ◌++◌, append-nil,
}
use rekor_monitor.Base.Int.{ℤ, ◌≤ℤ◌}
use rekor_monitor.Notifications.{NotificationPlatform, Payload}
use rekor_monitor.Cmd.Loop.{
  Call, checked, wrote, searched, sent, Status, waiting, stopped, crashed, LoopState, Outcome,
  after,
}

-- The search from `a` to `b` starts where the last one ended, if there was one, and goes forward.
abbrev pub Follows : Option ℤ → Option ℤ → Type 0
Follows none a = Unit
Follows (some last) a = a ≡ some last

abbrev pub InOrder : Option ℤ → Option ℤ → Type 0
InOrder (some a) (some b) = a ≤ℤ b
InOrder _ _ = ⊥

-- Among the calls, every search starts where the search before it ended.
abbrev pub ChainFrom : Option ℤ → List Call → Type 0
ChainFrom last [] = Unit
ChainFrom last (searched a b ∷ calls) = Follows last a × InOrder a b × ChainFrom b calls
ChainFrom last (checked ∷ calls) = ChainFrom last calls
ChainFrom last (wrote ∷ calls) = ChainFrom last calls
ChainFrom last (sent p l ∷ calls) = ChainFrom last calls

pub ChainFrom-none :
    (last : Option ℤ) (calls : List Call) → ChainFrom last calls → ChainFrom none calls
ChainFrom-none last [] h = tt
ChainFrom-none last (searched a b ∷ calls) h = (tt, h.1, h.2)
ChainFrom-none last (checked ∷ calls) h = ChainFrom-none last calls h
ChainFrom-none last (wrote ∷ calls) h = ChainFrom-none last calls h
ChainFrom-none last (sent p l ∷ calls) h = ChainFrom-none last calls h

-- What may follow a run: a chain from its last index, or nothing if the loop is over.
abbrev pub Continues : Status → Option ℤ → List Call → Type 0
Continues waiting last rest = ChainFrom last rest
Continues _ last rest = rest ≡ []

pub record IsChained (last : Option ℤ) (out : Outcome) : Type 0 where
  pub at :
      (rest : List Call)
      → Continues out.0 out.2.config.start_index rest
      → ChainFrom last (out.1 ++ rest)

pub nothing_follows : (last : Option ℤ) (rest : List Call) → rest ≡ [] → ChainFrom last rest
nothing_follows last [] h = tt
nothing_follows last (x ∷ rest) h = cc

pub stopped-IsChained : {last : Option ℤ} (s : LoopState) → IsChained last (stopped, [], s)
stopped-IsChained {last} s = record { at = nothing_follows last }

pub crashed-IsChained :
    {last : Option ℤ} (p : String) (s : LoopState) → IsChained last (crashed p, [], s)
crashed-IsChained {last} p s = record { at = nothing_follows last }

pub waiting-IsChained : (s : LoopState) → IsChained s.config.start_index (waiting, [], s)
waiting-IsChained s = record { at = λ rest k. k }

pub sent-IsChained :
    {last : Option ℤ} {out : Outcome} (p : Payload) (l : List NotificationPlatform)
    → IsChained last out
    → IsChained last (after (sent p l ∷ []) out)
sent-IsChained p l h = record { at = h.at }

pub wrote-IsChained :
    {last : Option ℤ} {out : Outcome} → IsChained last out → IsChained last (after (wrote ∷ []) out)
wrote-IsChained h = record { at = h.at }

pub checked-IsChained :
    {last : Option ℤ} {out : Outcome}
    → IsChained last out
    → IsChained last (after (checked ∷ []) out)
checked-IsChained h = record { at = h.at }

pub nothing_more : (st : Status) (last : Option ℤ) → Continues st last []
nothing_more waiting last = tt
nothing_more stopped last = refl
nothing_more (crashed p) last = refl

pub ChainFrom-over : {last : Option ℤ} (out : Outcome) → IsChained last out → ChainFrom last out.1
ChainFrom-over {last} out h =
    rw append-nil at (h.at [] (nothing_more out.0 out.2.config.start_index))

pub ChainFrom-then :
    {last : Option ℤ} (out : Outcome) (rest : List Call)
    → IsChained last out
    → out.0 ≡ waiting
    → ChainFrom out.2.config.start_index rest
    → ChainFrom last (out.1 ++ rest)
ChainFrom-then out rest h e k =
    h.at rest (subst (λ st. Continues st out.2.config.start_index rest) (sym e) k)

pub Status_rule :
    (P : Outcome → Type 0) (st : Status) (x y : Outcome) (z : String → Outcome)
    → (st ≡ waiting → P x)
    → P y
    → ((p : String) → P (z p))
    → P (elim st [ waiting ↦ x | stopped ↦ y | crashed p ↦ z p ])
Status_rule P waiting x y z p q r = p refl
Status_rule P stopped x y z p q r = q
Status_rule P (crashed c) x y z p q r = r c
