-- ===== src/Client/Sse/Within.antt =====
-- What the reader holds of a frame that is not complete.
use pi_threads.Base.{
  ℕ, ◌+◌, ◌<◌, ◌≡◌, Option, none, some, true, false, not, ◌||◌, List, ltb, length,
}
use pi_threads.Protocol.Stream.{max_stream_bytes}
use pi_threads.Worker.Output.Chunks.{has_newline}
use pi_threads.Transport.Sse.{byte_length}
use pi_threads.Client.Sse.{SseReader, has_thrown}

abbrev HasBuffer : List ℕ → SseReader → Type 0
HasBuffer buffer r = r.buffer ≡ buffer

-- The rest of a text after its first line is shorter.
abbrev IsShorter : Option (List ℕ × List ℕ) → List ℕ → Type 0
IsShorter none b = has_newline b ≡ false
IsShorter (some (line, after)) b = length after < length b

-- The reader has thrown, or no complete line is left in its buffer.
abbrev IsDone : SseReader → Type 0
IsDone r = (has_thrown r || not (has_newline r.buffer)) ≡ true

-- A reader that has not thrown holds no complete line, and no more than its limit.
pub record IsWithin (r : SseReader) : Type 0 where
  pub complete : (has_thrown r || not (has_newline r.buffer)) ≡ true
  pub bounded : (has_thrown r || not (ltb max_stream_bytes (r.bytes + byte_length r.buffer))) ≡ true
