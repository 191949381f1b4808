-- ===== src/GetPage/Tests.antt =====
-- The receiving page's theorems on one run of it (src/get/state.ts, src/get/reply.ts, src/get/failure.ts).
use wildbloom.Prelude.{◌≡◌, refl, true, false, List, [], ◌∷◌, some, Any}
use wildbloom.SendPage.{ok}
use wildbloom.GetPage.{Event, reduce, run, initial}
use wildbloom.GetPage.Event.{
  start, continue, paired, answer_yes, details, download, progress, checking,
}
use wildbloom.GetPage.Laws.{download_trusted}
use wildbloom.GetPage.Reply.{
  Channel, asked, fresh, sends, settles, disposes, reply, dispose, reply_once,
}
use wildbloom.GetPage.Reply
use wildbloom.GetPage.Failure.{transport, http_kind, PairingError}

abbrev session : List Event
session =
    start ok
    ∷ continue
    ∷ paired "sun oak fox"
    ∷ answer_yes
    ∷ details "a.txt" 12
    ∷ download
    ∷ progress 9
    ∷ checking
    ∷ []

download_trusted_example : Any (λ e. e ≡ answer_yes) session
unfolding run reduce
download_trusted_example = download_trusted initial session refl refl

reply_once_example :
    let c = Reply.run (sends ∷ disposes ∷ sends ∷ settles ∷ []) fresh in
    (c.calls ≡ asked c.started c.closed)
    × (c.started ≡ true → c.waiting ≡ false → c.calls ≡ reply ∷ dispose ∷ [])
reply_once_example = reply_once (sends ∷ disposes ∷ sends ∷ settles ∷ [])

abbrev refused : PairingError
refused = transport http_kind (some 409)
