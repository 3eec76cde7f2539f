-- ===== src/Util.antt =====
-- librestserver/rstutil.c: the utilities that every other part of the library uses.
pub mod Num
pub mod Keys
pub mod Free
pub mod Vector
pub mod Map
pub mod Set
pub mod StringBuilder
pub mod Replace
