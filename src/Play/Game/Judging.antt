-- ===== src/Play/Game/Judging.antt =====
-- Web-Osu-Mania/src/lib/beatmapParser.ts: `getHitWindows`, with the judgements of
-- src/osuMania/sprites/tap/tap.ts and hold/hold.ts. The overall difficulty is in thousandths, the
-- windows in ten-thousandths of a millisecond.
use ethtokyo.Prelude.{ℕ, ◌-◌, ◌*◌, ◌≤◌, ◌<◌, leb, if◌then◌else◌}
use ethtokyo.Play.Score.{Judgement, marvelous, perfect, great, good, bad, miss}
use ethtokyo.Play.Mods.{ModSettings, get_od_after_mods}
use ethtokyo.Play.Game.{Windows}

unfoldable pub get_hit_windows : {C P A : Type 0} → ℕ → ModSettings C P A → Windows
get_hit_windows od mods =
    let after = get_od_after_mods od mods in
    record {
      w320 = if leb after 5000 then 224000 - 6 * after else 249000 - 11 * after;
      w300 = 640000 - 30 * after;
      w200 = 970000 - 30 * after;
      w100 = 1270000 - 30 * after;
      w50 = 1510000 - 30 * after;
      w0 = 1880000 - 30 * after;
    }

-- What the error says of a judgement, where each window holds the narrower ones.
abbrev pub Within : Windows → Judgement → ℕ → Type 0
Within w marvelous d = d ≤ w.w320
Within w perfect d = (w.w320 < d) × (d ≤ w.w300)
Within w great d = (w.w300 < d) × (d ≤ w.w200)
Within w good d = (w.w200 < d) × (d ≤ w.w100)
Within w bad d = (w.w100 < d) × (d ≤ w.w50)
Within w miss d = w.w50 < d
