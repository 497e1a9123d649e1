-- ===== src/Tests.antt =====
-- Runs of the definitions at concrete inputs, and the theorems at inputs that meet their hypotheses.
mod Bilou
mod Codecs
mod Ner
mod Recognize
mod Training
mod Text
mod Utf16
mod Lookup
mod Features
mod Gazetteers
mod Network
