-- ===== src/Play.antt =====
-- A play of a beatmap: the score and the replay.
mod Score
mod Mods
mod Health
mod Replay
mod Game
mod Beatmap
mod Autoplay
mod Store
