-- ===== src/Tests.antt =====
-- Concrete inputs: a toy hash function of one byte, an exact integer logarithm, and a log of five
-- leaves. They run the code of the model, and meet the hypotheses of its theorems.
mod Toy
mod Trees
mod Compact
mod Wire
mod Der
mod Watch
mod Requests
mod Heads
