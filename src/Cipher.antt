-- ===== src/Cipher.antt =====
-- hw3/cipher/cipher.c and cipher.h: the cipher character device.
pub mod Device
pub mod Key
pub mod Loop
pub mod File
pub mod Read
pub mod Write
pub mod Ioctl
pub mod Driver
pub mod System
pub mod TestProgram
