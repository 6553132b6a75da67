-- ===== src/Rtcm/Counted.antt =====
-- base/src/decode_rtcm.cpp: the number of messages, by which a clock tells the time of each, goes up
-- by one with each message.
use nav_caster.Base.{ℕ, suc, ◌+◌, ◌≡◌, List, [], ◌∷◌, arith}
use nav_caster.Rtcm.Message.{MsgStat, stat_of, set_stat, update_stat, update_window, messages}

messages-set_stat :
    (id : ℕ) (s : MsgStat) (stats : List (ℕ × MsgStat))
    → messages (set_stat id s stats) + (stat_of id stats).count ≡ messages stats + s.count
unfolding messages set_stat stat_of
messages-set_stat id s [] = omega arith
messages-set_stat id s ((i, t) ∷ stats) = ground (arith, messages-set_stat id s stats)

update_stat-count : (now : ℕ) (s : MsgStat) → (update_stat now s).count ≡ suc s.count
unfolding update_stat update_window
update_stat-count now s = ground arith

-- The statistics that decode_message keeps count each message once, whatever its id.
messages-update_stat :
    (id now : ℕ) (stats : List (ℕ × MsgStat))
    → messages (set_stat id (update_stat now (stat_of id stats)) stats) ≡ suc (messages stats)
messages-update_stat id now stats = omega (
  arith,
  messages-set_stat id (update_stat now (stat_of id stats)) stats,
  update_stat-count now (stat_of id stats),
)
