-- ===== src/Session/Banner.antt =====
-- What `direct_tcpip_banner` of ssh-transport/src/lib.rs returns, and when it waits for ever.
use rust_core.Base.{ℕ, ◌≤◌, ◌<◌, ◌≡◌, ◌⊎◌, inl, inr, refl, sym, ◌∙◌, true, false, some, List, []}
use rust_core.Base.{◌∷◌, ◌++◌, append_assoc, append-nil, Text, length, arith, ltb, Bool-cases}
use rust_core.Russh.{Russh, Stream, arrival, ended, silent, channel_data, extended_data}
use rust_core.Russh.{channel_eof, channel_close, exit_status, unrelated, History, done}
use rust_core.Russh.{channel_open_direct_tcpip}
use rust_core.Outcome.{SshSpikeError, Outcome, ok, blocked, continue}
use rust_core.Connect.{SshSpikeSession, localhost}
use rust_core.Channel.Reads.{finishes}
use rust_core.Session.Texts.{IsText, from_utf8-IsText}
use rust_core.Session.{banner_loop, from_utf8, direct_tcpip_banner}

-- The bytes of the banner: all the data before the first close or EOF.
abbrev pub until_end : Stream → List ℕ
until_end (arrival late (channel_data bytes) s) = bytes ++ until_end s
until_end (arrival late channel_close s) = []
until_end (arrival late channel_eof s) = []
until_end (arrival late (extended_data bytes) s) = until_end s
until_end (arrival late (exit_status code) s) = until_end s
until_end (arrival late unrelated s) = until_end s
until_end ended = []
until_end silent = []

-- The beginning of what the target sends: all of it, or at least four bytes.
abbrev pub IsBanner : List ℕ → List ℕ → Type 0
IsBanner sent bytes = (rest : List ℕ) × (sent ≡ bytes ++ rest) × ((4 ≤ length bytes) ⊎ (rest ≡ []))

-- The loop from what it has received so far.
abbrev ReturnsBanner : Stream → List ℕ → Type 0
ReturnsBanner s got =
    (bytes : List ℕ) × (banner_loop s got ≡ ok bytes) × IsBanner (got ++ until_end s) bytes

enough_bytes :
    (got more rest : List ℕ)
    → ltb (length (got ++ more)) 4 ≡ false
    → IsBanner (got ++ (more ++ rest)) (got ++ more)
enough_bytes got more rest e = (rest, sym (append_assoc got more rest), inl (ground arith))

nothing_more : (got : List ℕ) → IsBanner (got ++ []) got
nothing_more got = ([], refl, inr refl)

-- The loop waits for ever on less than four bytes of a target that goes silent.
abbrev IsStalled : Stream → List ℕ → Type 0
IsStalled s got =
    (finishes s ≡ false) × (banner_loop s got ≡ blocked) × (length (got ++ until_end s) < 4)

banner_loop-cases :
    (s : Stream) (got : List ℕ) → length got < 4 → ReturnsBanner s got ⊎ IsStalled s got
unfolding banner_loop
banner_loop-cases (arrival late (channel_data more) s) got lt =
    elim (Bool-cases (ltb (length (got ++ more)) 4)) [
      | inl short ↦ rw short (
          rw (← append_assoc got more (until_end s))
            (banner_loop-cases s (got ++ more) (ground arith)))
      | inr enough ↦ inl (got ++ more, rw enough refl, enough_bytes got more (until_end s) enough)
    ]
banner_loop-cases (arrival late channel_close s) got lt = inl (got, refl, nothing_more got)
banner_loop-cases (arrival late channel_eof s) got lt = inl (got, refl, nothing_more got)
banner_loop-cases (arrival late (extended_data more) s) got lt = banner_loop-cases s got lt
banner_loop-cases (arrival late (exit_status code) s) got lt = banner_loop-cases s got lt
banner_loop-cases (arrival late unrelated s) got lt = banner_loop-cases s got lt
banner_loop-cases ended got lt = inl (got, refl, nothing_more got)
banner_loop-cases silent got lt = inr (refl, refl, rw append-nil lt)

-- The loop of the probe, on a target that ends its data by an EOF, a close or the end of the
-- transport, returns the beginning of what the target sends: all of it, or at least four bytes.
banner_loop_lem :
    (s : Stream)
    → finishes s ≡ true
    → (bytes : List ℕ) × (banner_loop s [] ≡ ok bytes) × IsBanner (until_end s) bytes
banner_loop_lem s f = elim (banner_loop-cases s [] (omega arith)) [
  | inl returns ↦ returns
  | inr (endless, _, _) ↦ cc
]

-- A probe whose forwarded channel opens.
module _ (L : Russh) (s : SshSpikeSession) (host : Text) (port : ℕ) (h : History)
    {handle channel : ℕ} (live : s.handle ≡ some handle)
    (opened : L.opens h (channel_open_direct_tcpip handle host port localhost 0)
      ≡ done channel) where
  abbrev pub probed : History
  probed = channel_open_direct_tcpip handle host port localhost 0 ∷ h

  abbrev pub replies : Stream
  replies = L.incoming probed channel

  banner-receive :
      direct_tcpip_banner L s host port h
      ≡ continue (λ got h'. (from_utf8 got, h')) (banner_loop replies []) probed
  unfolding direct_tcpip_banner
  banner-receive = rw (live, opened)

  -- On a session that is connected, whose forwarded channel opens: the probe makes no other call, and
  -- either it returns the beginning of what the target sends before an EOF, a close or the end of the
  -- transport, which is all of it or at least four bytes, as a text if these bytes encode Unicode
  -- scalar values and as a channel error otherwise; or the target sends less than four bytes and
  -- then goes silent, and the probe waits for ever.
  pub direct_tcpip_banner_lem :
      ((bytes : List ℕ) × ((r : Outcome SshSpikeError Text) × (direct_tcpip_banner L s host port h
            ≡ (r, probed))
          × IsText bytes r)
        × IsBanner (until_end replies) bytes)
      ⊎ ((direct_tcpip_banner L s host port h ≡ (blocked, probed))
          × (finishes replies ≡ false)
          × (length (until_end replies) < 4))
  direct_tcpip_banner_lem = elim (banner_loop-cases replies [] (omega arith)) [
    | inl (bytes, r, is) ↦ inl (bytes, (_, banner-receive ∙ rw r refl, from_utf8-IsText bytes), is)
    | inr (endless, r, few) ↦ inr (banner-receive ∙ rw r refl, endless, few)
  ]
