-- ===== src/GetPage/Reply.antt =====
-- The one message that the receiving page sends back (createDownloadedReply of src/get/reply.ts). The
-- channel is the calls that were made on it, oldest first; `reply` settles in an event of its own.
use wildbloom.Prelude.{◌≡◌, Bool, true, false, ◌||◌, ◌++◌, List, [], ◌∷◌, if◌then◌else◌, arith}

-- The calls on a `ReplyChannel`.
pub data Call : Type 0 where
  reply dispose : Call

-- The variables of `createDownloadedReply`, and whether a reply is on its way.
pub record Channel : Type 0 where
  pub started : Bool
  pub closed : Bool
  pub waiting : Bool
  pub calls : List Call

abbrev pub fresh : Channel
fresh = record { started = false; closed = false; waiting = false; calls = [] }

-- `close`. Whatever `dispose` throws is dropped.
pub close : Channel → Channel
close c = if c.closed then c else record c { closed = true; calls = c.calls ++ (dispose ∷ []) }

-- `send()`, up to its `await`.
pub send : Channel → Channel
send c =
    if c.started || c.closed
    then c
    else record c { started = true; waiting = true; calls = c.calls ++ (reply ∷ []) }

-- The reply resolves or rejects: both end in the `finally`.
pub settle : Channel → Channel
settle c = if c.waiting then (let c' = record c { waiting = false } in close c') else c

pub data Event : Type 0 where
  sends settles disposes : Event

pub step : Event → Channel → Channel
step sends c = send c
step settles c = settle c
step disposes c = close c

pub run : List Event → Channel → Channel
run [] c = c
run (e ∷ es) c = run es (step e c)

-- What has been asked of the channel, by whether the reply was started and the channel closed.
abbrev pub asked : Bool → Bool → List Call
asked false false = []
asked false true = dispose ∷ []
asked true false = reply ∷ []
asked true true = reply ∷ dispose ∷ []

record Fits (c : Channel) : Type 0 where
  called : c.calls ≡ asked c.started c.closed
  begun : c.waiting ≡ true → c.started ≡ true
  open_waits : c.started ≡ true → c.closed ≡ false → c.waiting ≡ true

step-Fits : (e : Event) (c : Channel) → Fits c → Fits (step e c)
unfolding step send settle close
step-Fits e c p = ground arith

run-Fits : (es : List Event) (c : Channel) → Fits c → Fits (run es c)
unfolding run
run-Fits [] c p = p
run-Fits (e ∷ es) c p = run-Fits es (step e c) (step-Fits e c p)

-- However often the page sends and disposes, and whenever the reply settles, the channel has had at
-- most one reply, and is disposed of at most once, behind it. Once a reply is no longer on its way, it
-- has been disposed of.
pub reply_once :
    (es : List Event)
    → let c = run es fresh in
      (c.calls ≡ asked c.started c.closed)
      × (c.started ≡ true → c.waiting ≡ false → c.calls ≡ reply ∷ dispose ∷ [])
reply_once es = let p = run-Fits es fresh (ground arith) in ground arith
