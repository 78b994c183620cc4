-- ===== src/Session/Output.antt =====
-- What `exec` of ssh-transport/src/lib.rs collects of a command's output, whatever the server does.
use rust_core.Base.{ℕ, ◌≡◌, ◌⊎◌, inl, inr, refl, sym, ap, ◌∙◌, Bool, true, false, Bool-cases, List}
use rust_core.Base.{[], ◌∷◌, ◌++◌, append_assoc, append-nil, Text, some}
use rust_core.Russh.{Russh, Stream, arrival, ended, silent, channel_data, extended_data}
use rust_core.Russh.{channel_eof, channel_close, exit_status, unrelated, History, Call, done}
use rust_core.Russh.{channel_open_session}
use rust_core.Outcome.{SshSpikeError, Outcome, ok, blocked}
use rust_core.Connect.{SshSpikeSession}
use rust_core.Pump.Events.{before_close}
use rust_core.Session.{exec_loop, exec}
use rust_core.Session.Texts.{IsText, from_utf8-IsText}
use rust_core.Session.Exec.{stdout, concludes, is_prompt, exec_loop-blocks, exec-receive, asked}

-- The standard output before the status, the close or the end.
abbrev pub before_status : Stream → List ℕ
before_status (arrival late (channel_data bytes) s) = bytes ++ before_status s
before_status (arrival late (exit_status code) s) = []
before_status (arrival late channel_close s) = []
before_status (arrival late channel_eof s) = before_status s
before_status (arrival late (extended_data bytes) s) = before_status s
before_status (arrival late unrelated s) = before_status s
before_status ended = []
before_status silent = []

-- The rest of the output, of which `extra` was collected after the status, and the remainder is lost
-- only to a message that is late.
abbrev Collects : Bool → Stream → List ℕ → List ℕ → Type 0
Collects seen s sure got =
    (extra : List ℕ) × (lost : List ℕ) × (exec_loop s seen got ≡ ok (got ++ (sure ++ extra)))
    × (stdout (before_close s) ≡ (sure ++ extra) ++ lost)
    × ((lost ≡ []) ⊎ (is_prompt seen s ≡ false))

cut_off :
    (s : Stream) (got : List ℕ)
    → exec_loop s true got ≡ ok got
    → (stdout (before_close s) ≡ []) ⊎ (is_prompt true s ≡ false)
    → Collects true s [] got
cut_off s got e why = ([], stdout (before_close s), e ∙ ap ok (sym (append-nil got)), refl, why)

with_more :
    (seen : Bool) (s t : Stream) (sure got more : List ℕ)
    → exec_loop t seen got ≡ exec_loop s seen (got ++ more)
    → stdout (before_close t) ≡ more ++ stdout (before_close s)
    → is_prompt seen t ≡ is_prompt seen s
    → Collects seen s sure (got ++ more)
    → Collects seen t (more ++ sure) got
with_more seen s t sure got more e out same (extra, lost, r, split, why) =
    let whole = sym (append_assoc more sure extra) in
    (
      extra,
      lost,
      e ∙ r ∙ ap ok (append_assoc got more (sure ++ extra) ∙ ap (λ x. got ++ x) whole),
      out
          ∙ ap (λ x. more ++ x) split
          ∙ sym (append_assoc more (sure ++ extra) lost)
          ∙ ap (λ x. x ++ lost) whole,
      rw same why,
    )

-- What is sure to be collected may be claimed to be extra.
less_sure :
    (seen : Bool) (s : Stream) (sure got : List ℕ)
    → Collects seen s sure got
    → Collects seen s [] got
less_sure seen s sure got (extra, lost, r, split, why) = (sure ++ extra, lost, r, split, why)

after_status : (s : Stream) (got : List ℕ) → Collects true s [] got
unfolding exec_loop
after_status (arrival true (channel_data bytes) s) got =
    cut_off (arrival true (channel_data bytes) s) got refl (inr refl)
after_status (arrival false (channel_data bytes) s) got =
    less_sure true (arrival false (channel_data bytes) s) (bytes ++ []) got (
      with_more true s (arrival false (channel_data bytes) s) [] got bytes refl refl refl
        (after_status s (got ++ bytes)))
after_status (arrival true (exit_status code) s) got =
    cut_off (arrival true (exit_status code) s) got refl (inr refl)
after_status (arrival false (exit_status code) s) got = after_status s got
after_status (arrival late channel_close s) got =
    cut_off (arrival late channel_close s) got refl (inl refl)
after_status (arrival true channel_eof s) got =
    cut_off (arrival true channel_eof s) got refl (inr refl)
after_status (arrival false channel_eof s) got = after_status s got
after_status (arrival true (extended_data bytes) s) got =
    cut_off (arrival true (extended_data bytes) s) got refl (inr refl)
after_status (arrival false (extended_data bytes) s) got = after_status s got
after_status (arrival true unrelated s) got = cut_off (arrival true unrelated s) got refl (inr refl)
after_status (arrival false unrelated s) got = after_status s got
after_status ended got = cut_off ended got refl (inl refl)
after_status silent got = cut_off silent got refl (inl refl)

nothing_sure :
    (s : Stream) (got : List ℕ)
    → exec_loop s false got ≡ ok got
    → stdout (before_close s) ≡ []
    → Collects false s [] got
nothing_sure s got e none_left = ([], [], e ∙ ap ok (sym (append-nil got)), none_left, inl refl)

exec_loop-Collects :
    (s : Stream) (got : List ℕ) → concludes s ≡ true → Collects false s (before_status s) got
unfolding exec_loop
exec_loop-Collects (arrival late (channel_data bytes) s) got c =
    with_more false s (arrival late (channel_data bytes) s) (before_status s) got bytes refl refl
      refl (exec_loop-Collects s (got ++ bytes) c)
exec_loop-Collects (arrival late (exit_status code) s) got c = after_status s got
exec_loop-Collects (arrival late channel_close s) got c =
    nothing_sure (arrival late channel_close s) got refl refl
exec_loop-Collects (arrival late channel_eof s) got c = exec_loop-Collects s got c
exec_loop-Collects (arrival late (extended_data bytes) s) got c = exec_loop-Collects s got c
exec_loop-Collects (arrival late unrelated s) got c = exec_loop-Collects s got c
exec_loop-Collects ended got c = nothing_sure ended got refl refl
exec_loop-Collects silent got c = cc

-- A run of `exec` whose channel opens and whose request is sent.
module _ (L : Russh) (s : SshSpikeSession) (command : Text) (h : History) {handle channel : ℕ}
    (live : s.handle ≡ some handle)
    (opened : L.opens h (channel_open_session handle) ≡ done channel)
    (sent : L.acknowledges (channel_open_session handle ∷ h) (Call.exec channel false command)
      ≡ done tt) where
  -- On a session that is connected, whose channel opens and whose request is sent, whatever the server
  -- sends: `exec` waits for ever, and then the server has gone silent with no status, close or end of
  -- the transport; or there was one of these, and it returns all the standard output before the status and
  -- a first part of what follows it, before the close, as a text if these bytes encode Unicode scalar
  -- values and as a channel error otherwise. That part is all of it, unless a message after the status
  -- is late.
  pub exec_lem :
      let run = asked L s command h live opened sent in
      let replies = L.incoming run channel in
      ((exec L s command h ≡ (blocked, run)) × (concludes replies ≡ false))
      ⊎ ((extra : List ℕ) × (lost : List ℕ) × (concludes replies ≡ true)
          × ((r : Outcome SshSpikeError Text) × (exec L s command h ≡ (r, run))
              × IsText (before_status replies ++ extra) r)
          × (stdout (before_close replies) ≡ (before_status replies ++ extra) ++ lost)
          × ((lost ≡ []) ⊎ (is_prompt false replies ≡ false)))
  exec_lem =
      let received = exec-receive L s command h live opened sent in
      let replies = L.incoming (asked L s command h live opened sent) channel in
      elim (Bool-cases (concludes replies)) [
        | inl over ↦
            let (extra, lost, r, split, why) = exec_loop-Collects replies [] over in
            inr (extra, lost, over, (_, received ∙ rw r refl, from_utf8-IsText _), split, why)
        | inr endless ↦ inl (received ∙ rw (exec_loop-blocks replies [] endless) refl, endless)
      ]
