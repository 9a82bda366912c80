-- ===== src/Server/App/Closing.antt =====
-- The order of a shutdown (Shutdown of internal/server/server.go).
use Prim.Native.String.{String}
use go_chat_backend.Common.{
  ℕ, zero, suc, ◌≡◌, refl, Bool, true, false, not, ◌&&◌, ◌||◌, Option, none, some, List, [], ◌∷◌,
  take, arith, ◌↔◌,
}
use go_chat_backend.Server.App.{App, Close, close_one, close_all, steps, join, shutdown, calls}

-- What a part needs is open while the part runs: requests and the background work need the hub, the
-- broker, presence and the database; the requests need the relay behind them; all are traced; and
-- requests are only refused once the node says that it drains.
abbrev pub is_layered : App → Bool
is_layered a =
    (not (a.serving || a.background || a.hub) || a.database)
    && (not (a.serving || a.background) || (a.hub && a.broker && a.presence))
    && (not a.serving || a.background)
    && (not (a.serving || a.background || a.hub || a.broker || a.presence || a.database)
        || a.tracing)
    && (a.serving || a.draining)

-- In whatever well-layered state a node is, it is in such a state after each step of a shutdown.
pub steps-is_layered :
    (n : ℕ) (a : App) → is_layered a ≡ true → is_layered (close_all (take n steps) a) ≡ true
unfolding close_all close_one
steps-is_layered zero a h = h
steps-is_layered (suc zero) a h = ground arith
steps-is_layered (suc (suc zero)) a h = ground arith
steps-is_layered (suc (suc (suc zero))) a h = ground arith
steps-is_layered (suc (suc (suc (suc zero)))) a h = ground arith
steps-is_layered (suc (suc (suc (suc (suc zero))))) a h = ground arith
steps-is_layered (suc (suc (suc (suc (suc (suc zero)))))) a h = ground arith
steps-is_layered (suc (suc (suc (suc (suc (suc (suc zero))))))) a h = ground arith
steps-is_layered (suc (suc (suc (suc (suc (suc (suc (suc zero)))))))) a h = ground arith
steps-is_layered (suc (suc (suc (suc (suc (suc (suc (suc (suc n))))))))) a h = ground arith

abbrev pub closed : App
closed = record {
  draining = true;
  serving = false;
  background = false;
  hub = false;
  broker = false;
  presence = false;
  database = false;
  tracing = false;
}

abbrev pub AllNone : List (Option String) → Type 0
AllNone [] = Unit {0}
AllNone (e ∷ es) = (e ≡ none) × AllNone es

none-join : (es : List (Option String)) → AllNone es → join es ≡ []
unfolding join
none-join [] h = refl
none-join (none ∷ es) (h, hs) = none-join es hs
none-join (some e ∷ es) (h, hs) = absurd (cc)

join-none : (es : List (Option String)) → join es ≡ [] → AllNone es
unfolding join
join-none [] h = tt
join-none (none ∷ es) h = (refl, join-none es h)
join-none (some e ∷ es) h = absurd (cc)

-- Whatever fails on the way, a shutdown closes every part; and it reports nothing only if nothing failed.
pub shutdown_closes :
    (fails : Close → Option String) (a : App)
    → ((shutdown fails a).1 ≡ closed) × (((shutdown fails a).0 ≡ []) ↔ AllNone (calls fails))
unfolding shutdown
shutdown_closes fails a =
    (unfold close_all close_one in refl, (join-none (calls fails), none-join (calls fails)))
